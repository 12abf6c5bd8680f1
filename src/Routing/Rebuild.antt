-- ===== src/Routing/Rebuild.antt =====
-- internal/routing/swap.go: RebuildAfterSync and RebuildForUpstreamChange. Both walk the users of
-- the old snapshot, refresh each against the upstreams that the database has now, and give a new
-- cancel group to those whose connections must end.
use pio.Base.{
  ℕ, ◌+◌, Bool, true, false, Option, none, some, List, [], ◌∷◌, GoString, str_discrete, str_eq, not,
  ◌&&◌, if◌then◌else◌,
}
use pio.Base.Map.{Map, find, put}
use pio.Model.{ResolvedUpstream}
use pio.Store.{
  Result, ok, err, ◌>>=◌, empty_upstream_id, nil_dereference, list_all_resolved_upstreams,
}
use pio.Routing.State.{Groups, new_cancel_group, cancel, ResolvedUser, RoutingState, u64, Core}
use pio.Routing.Build.{build_display_name_routes}

pub record BrokenInfo : Type 0 where
  pub username : GoString
  pub old_upstream_id : GoString

-- The new record of a user, with the old group, against the upstreams of the database.
unfoldable pub refresh : Map GoString ResolvedUpstream → ResolvedUser → ResolvedUser
refresh upstreams ru =
    if str_eq ru.upstream_id []
    then record {
      username = ru.username;
      password_plain = ru.password_plain;
      upstream_id = [];
      upstream = none;
      upstream_pwd = [];
      broken = true;
      cancel_group = ru.cancel_group;
    }
    else elim (find str_discrete ru.upstream_id upstreams) [
      | none ↦ record {
        username = ru.username;
        password_plain = ru.password_plain;
        upstream_id = ru.upstream_id;
        upstream = none;
        upstream_pwd = [];
        broken = true;
        cancel_group = ru.cancel_group;
      }
      | some up ↦ record {
        username = ru.username;
        password_plain = ru.password_plain;
        upstream_id = ru.upstream_id;
        upstream = some up.upstream;
        upstream_pwd = up.password;
        broken = false;
        cancel_group = ru.cancel_group;
      }
    ]

-- `nru.Broken && !wasBroken`
unfoldable pub newly_broken : Map GoString ResolvedUpstream → ResolvedUser → Bool
newly_broken upstreams ru = (refresh upstreams ru).broken && not ru.broken

-- `ru.UpstreamID == changedID`
unfoldable pub maps_to : GoString → ResolvedUser → Bool
maps_to changed_id ru = str_eq ru.upstream_id changed_id

pub record Rebuilt : Type 0 where
  pub users : Map GoString ResolvedUser
  pub rotated : List BrokenInfo
  pub groups : Groups

-- The loop over the old users: `rotates` says who gets a new group.
unfoldable pub rebuild_users :
    (ResolvedUser → Bool)
    → Map GoString ResolvedUpstream
    → Map GoString ResolvedUser
    → Groups
    → Rebuilt
rebuild_users rotates upstreams [] g = record { users = []; rotated = []; groups = g }
rebuild_users rotates upstreams ((name, ru) ∷ rest) g =
    let nru = refresh upstreams ru in
    let kept = rebuild_users rotates upstreams rest g in
    let (group, g') = new_cancel_group g in
    let fresh = rebuild_users rotates upstreams rest g' in
    if rotates ru
    then record {
      users = put str_discrete name (record nru { cancel_group = group }) fresh.users;
      rotated = record { username = name; old_upstream_id = ru.upstream_id } ∷ fresh.rotated;
      groups = fresh.groups;
    }
    else record {
      users = put str_discrete name nru kept.users;
      rotated = kept.rotated;
      groups = kept.groups;
    }

-- The loop that cancels the old groups and calls back; a nil callback skips it whole.
unfoldable pub notify :
    {W : Type 0}
    → (BrokenInfo → W → W)
    → Map GoString ResolvedUser
    → List BrokenInfo
    → Groups × W
    → Groups × W
notify f old [] (g, w) = (g, w)
notify f old (b ∷ bs) (g, w) = notify f old bs (
  elim (find str_discrete b.username old) [ none ↦ g | some ru ↦ cancel ru.cancel_group g ],
  f b w,
)

abbrev pub notify_if :
    {W : Type 0}
    → Option (BrokenInfo → W → W)
    → Map GoString ResolvedUser
    → List BrokenInfo
    → Groups × W
    → Groups × W
notify_if none old bs s = s
notify_if (some f) old bs s = notify f old bs s

abbrev pub next_state :
    RoutingState → Map GoString ResolvedUpstream → Rebuilt → ℕ → Groups → RoutingState × Groups
next_state cur upstreams r now g =
    let (routes, g') = build_display_name_routes upstreams g in
    (
      record {
        users = r.users;
        upstreams = upstreams;
        by_display_name = routes;
        universal_pwd = cur.universal_pwd;
        version = u64 (cur.version + 1);
        built_at = now;
      },
      g',
    )

module _ (decrypt : GoString → GoString → Option GoString) {W : Type 0} where
  -- What both rebuilds do once the upstreams are read and the snapshot is known.
  unfoldable pub rebuild_with :
      (Map GoString ResolvedUpstream → ResolvedUser → Bool)
      → Bool
      → ℕ
      → Option (BrokenInfo → W → W)
      → Core × W
      → Result (Core × W)
  rebuild_with rotates fails now callback (c, w) = do
    upstreams ← list_all_resolved_upstreams decrypt fails c.db
    elim c.routing_state [
      | none ↦ err nil_dereference
      | some cur ↦
          let r = rebuild_users (rotates upstreams) upstreams cur.users c.groups in
          let (state, g) = next_state cur upstreams r now r.groups in
          let (g', w') = notify_if callback cur.users r.rotated (g, w) in
          ok (record { db = c.db; routing_state = some state; groups = g' }, w')
    ]

  unfoldable pub rebuild_after_sync :
      Bool → ℕ → Option (BrokenInfo → W → W) → Core × W → Result (Core × W)
  rebuild_after_sync fails now on_mapping_broken s =
      rebuild_with newly_broken fails now on_mapping_broken s

  unfoldable pub rebuild_for_upstream_change :
      GoString → Bool → ℕ → Option (BrokenInfo → W → W) → Core × W → Result (Core × W)
  rebuild_for_upstream_change changed_id fails now on_upstream_changed s =
      if str_eq changed_id []
      then err empty_upstream_id
      else rebuild_with (λ upstreams. maps_to changed_id) fails now on_upstream_changed s
