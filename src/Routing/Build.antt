-- ===== src/Routing/Build.antt =====
-- internal/routing/routing.go: the display-name index and Hydrate.
use pio.Base.{
  ℕ, ◌+◌, ◌==◌, Bool, true, Option, none, some, List, [], ◌∷◌, GoString, str_discrete, str_eq, not,
  if◌then◌else◌,
}
use pio.Base.Map.{Map, find, put}
use pio.Model.{LocalUser, ResolvedUpstream}
use pio.Store.{
  Tables, Result, ok, ◌>>=◌, driver, list_all_resolved_upstreams, load_universal_proxy_password,
}
use pio.Routing.State.{Groups, new_cancel_group, ResolvedUser, DisplayNameRoute, u64, Core}

-- A missing key reads as 0.
abbrev pub count_of : GoString → Map GoString ℕ → ℕ
count_of name counts = elim (find str_discrete name counts) [ none ↦ 0 | some n ↦ n ]

-- The first loop: how many upstreams carry each non-empty display name.
unfoldable pub count_names : Map GoString ResolvedUpstream → Map GoString ℕ
count_names [] = []
count_names ((id, up) ∷ rest) =
    let counts = count_names rest in
    if str_eq up.display_name []
    then counts
    else put str_discrete up.display_name (count_of up.display_name counts + 1) counts

-- The second loop: a route for each name that was counted once.
unfoldable pub add_routes :
    Map GoString ℕ → Map GoString ResolvedUpstream → Groups → Map GoString DisplayNameRoute × Groups
add_routes counts [] g = ([], g)
add_routes counts ((id, up) ∷ rest) g =
    let skip = add_routes counts rest g in
    let (group, g') = new_cancel_group g in
    let (routes, g'') = add_routes counts rest g' in
    let taken : Map GoString DisplayNameRoute × Groups = (
      put str_discrete up.display_name
          (record { upstream = some up.upstream; upstream_pwd = up.password; cancel_group = group })
          routes,
      g'',
    ) in
    if str_eq up.display_name []
    then skip
    else if not (count_of up.display_name counts == 1)
    then skip
    else taken

unfoldable pub build_display_name_routes :
    Map GoString ResolvedUpstream → Groups → Map GoString DisplayNameRoute × Groups
build_display_name_routes upstreams g = add_routes (count_names upstreams) upstreams g

-- One round of the user loop of Hydrate.
unfoldable pub resolve_user : Map GoString ResolvedUpstream → LocalUser → ℕ → ResolvedUser
resolve_user upstreams u group = elim u.upstream_proxy_id [
  | none ↦ record {
    username = u.username;
    password_plain = u.password_plain;
    upstream_id = [];
    upstream = none;
    upstream_pwd = [];
    broken = true;
    cancel_group = group;
  }
  | some id ↦ elim (find str_discrete id upstreams) [
    | none ↦ record {
      username = u.username;
      password_plain = u.password_plain;
      upstream_id = id;
      upstream = none;
      upstream_pwd = [];
      broken = true;
      cancel_group = group;
    }
    | some up ↦ record {
      username = u.username;
      password_plain = u.password_plain;
      upstream_id = id;
      upstream = some up.upstream;
      upstream_pwd = up.password;
      broken = u.broken;
      cancel_group = group;
    }
  ]
]

unfoldable pub resolve_users :
    Map GoString ResolvedUpstream → List LocalUser → Groups → Map GoString ResolvedUser × Groups
resolve_users upstreams [] g = ([], g)
resolve_users upstreams (u ∷ us) g =
    let (group, g') = new_cancel_group g in
    let (resolved, g'') = resolve_users upstreams us g' in
    (put str_discrete u.username (resolve_user upstreams u group) resolved, g'')

-- Which of the three queries the driver fails.
pub record HydrateFaults : Type 0 where
  pub upstreams : Bool
  pub users : Bool
  pub password : Bool

module _ (decrypt : GoString → GoString → Option GoString) where
  -- Hydrate: `listed`, `named` and `keyed` are the tables at its three queries, before which and behind
  -- which others may write. `now` and `later` are the two readings of the clock.
  unfoldable pub hydrate_from :
      HydrateFaults → Tables → Tables → Tables → ℕ → ℕ → Core → Result Core
  hydrate_from faults listed named keyed now later c = do
    upstreams ← list_all_resolved_upstreams decrypt faults.upstreams listed
    users ← driver faults.users named.local_users
    universal_pwd ← load_universal_proxy_password decrypt faults.password keyed
    let (resolved, g) = resolve_users upstreams users c.groups
    let (routes, g') = build_display_name_routes upstreams g
    ok (record c {
      routing_state = some (record {
        users = resolved;
        upstreams = upstreams;
        by_display_name = routes;
        universal_pwd = universal_pwd;
        version = u64 now;
        built_at = later;
      });
      groups = g';
    })

  -- Hydrate while nothing else writes, as at the start of the daemon.
  abbrev pub hydrate : HydrateFaults → ℕ → ℕ → Core → Result Core
  hydrate faults now later c = hydrate_from faults c.db c.db c.db now later c
