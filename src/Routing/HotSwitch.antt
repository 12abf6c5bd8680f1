-- ===== src/Routing/HotSwitch.antt =====
-- What a rebuild does to each user's connections: the group of a user that the change concerns is
-- cancelled and replaced by a live one, the group of any other user stays as it is.
use pio.Base.{
  ℕ, ◌≡◌, ◌∙◌, refl, sym, Bool, true, false, some, GoString, str_discrete, str_eq, inl, inr, Option,
  subst, some_eq, if◌then◌else◌, Bool-cases,
}
use mathlib.Core.Bool.{false≢true}
use mathlib.Core.Path.{subst₂}
use pio.Base.Map.{Map, find}
use pio.Model.{ResolvedUpstream}
use pio.Store.{Tables, ok, ok_eq, list_all_resolved_upstreams}
use pio.Routing.State.{Groups, ResolvedUser, RoutingState, Core, is_done}
use pio.Routing.Rebuild.{
  BrokenInfo, Rebuilt, refresh, newly_broken, maps_to, rebuild_users, rebuild_with,
  rebuild_after_sync, rebuild_for_upstream_change, notify_if, next_state,
}
use pio.Routing.Users.{find-rebuild_users}
use pio.Routing.Notify.{notices_complete, notify_cancels}
use pio.Routing.Live.{GroupsOk, StateIsLive}
use pio.Routing.LiveRebuild.{rebuilt-StateIsLive, Spares-kept, spared, same_state}
use pio.Routing.Outcomes.{rebuild_outcome}
use pio.Routing.Reach.{IsLive, change_rebuilds}

-- A user whose connections the rebuild ends.
abbrev pub CutOff : Map GoString ResolvedUpstream → ResolvedUser → Core → GoString → Type 0
CutOff ups ru c' name =
    (is_done c'.groups ru.cancel_group ≡ true)
    × ((st : RoutingState) × (nru : ResolvedUser) × (c'.routing_state ≡ some st)
        × (find str_discrete name st.users ≡ some nru)
        × (nru ≡ record (refresh ups ru) { cancel_group = nru.cancel_group })
        × (is_done c'.groups nru.cancel_group ≡ false))

-- A user whose connections go on.
abbrev pub CarriedOn : Map GoString ResolvedUpstream → ResolvedUser → Core → GoString → Type 0
CarriedOn ups ru c' name =
    (is_done c'.groups ru.cancel_group ≡ false)
    × ((st : RoutingState) × (c'.routing_state ≡ some st)
        × (find str_discrete name st.users ≡ some (refresh ups ru)))

-- The core and the world that a rebuild of `cur` leaves.
abbrev rebuild_result :
    {W : Type 0}
    → (ResolvedUser → Bool)
    → Map GoString ResolvedUpstream
    → RoutingState
    → Groups
    → (BrokenInfo → W → W)
    → W
    → ℕ
    → Tables
    → Core × W
rebuild_result rotates ups cur g f w now db =
    let r = rebuild_users rotates ups cur.users g in
    let n = next_state cur ups r now r.groups in
    let done = notify_if (some f) cur.users r.rotated (n.1, w) in
    (record { db = db; routing_state = some n.0; groups = done.0 }, done.1)

module _ {W : Type 0} (rotates : ResolvedUser → Bool) (ups : Map GoString ResolvedUpstream)
    (cur : RoutingState) (g : Groups) (good : GroupsOk g) (live : StateIsLive cur g)
    (f : BrokenInfo → W → W) (w : W) (now : ℕ) (db : Tables) (name : GoString) (ru : ResolvedUser)
    (user : find str_discrete name cur.users ≡ some ru) where
  abbrev r : Rebuilt
  r = rebuild_users rotates ups cur.users g

  abbrev n : RoutingState × Groups
  n = next_state cur ups r now r.groups

  abbrev rebuilt : Core
  rebuilt = (rebuild_result rotates ups cur g f w now db).0

  rotated_is_cut : rotates ru ≡ true → CutOff ups ru rebuilt name
  rotated_is_cut t =
      let (nru, e, o) = find-rebuild_users rotates ups name cur.users g ru user in
      let fresh =
        (rebuilt-StateIsLive rotates ups cur g good live (some f) w now).user_live name nru e in
      (
        notify_cancels f cur.users r.rotated n.1 w name ru
            (notices_complete rotates ups cur.users g name ru user t) user,
        (
          n.0,
          nru,
          refl,
          e,
          elim o [ inl (k, _) ↦ absurd (false≢true (sym k ∙ t)) | inr (_, q, _, _) ↦ q ],
          fresh.1,
        ),
      )

  spared_carries_on : rotates ru ≡ false → CarriedOn ups ru rebuilt name
  spared_carries_on k =
      let (nru, e, o) = find-rebuild_users rotates ups name cur.users g ru user in
      let quiet = Spares-kept rotates ups cur g good live name ru user k in
      (
        spared rotates ups cur g good live (some f) w ru.cancel_group quiet
            ∙ same_state rotates ups cur g good live ru.cancel_group
            ∙ (live.user_live name ru user).1,
        (
          n.0,
          refl,
          elim o [
            | inl (_, q) ↦ subst (λ x. find str_discrete name r.users ≡ some x) q e
            | inr (t, _, _, _) ↦ absurd (false≢true (sym k ∙ t))
          ],
        ),
      )

  settled : (if rotates ru then CutOff ups ru rebuilt name else CarriedOn ups ru rebuilt name)
  settled = elim (Bool-cases (rotates ru)) [
    | inl t ↦
        subst (λ b. if b then CutOff ups ru rebuilt name else CarriedOn ups ru rebuilt name) (sym t)
          (rotated_is_cut t)
    | inr k ↦
        subst (λ b. if b then CutOff ups ru rebuilt name else CarriedOn ups ru rebuilt name) (sym k)
          (spared_carries_on k)
  ]

module _ (decrypt : GoString → GoString → Option GoString) {W : Type 0} (fails : Bool) (now : ℕ)
    (f : BrokenInfo → W → W) (s s' : Core × W) (live : IsLive s.0)
    (ups : Map GoString ResolvedUpstream)
    (read : list_all_resolved_upstreams decrypt fails s.0.db ≡ ok ups) (cur : RoutingState)
    (was : s.0.routing_state ≡ some cur) (name : GoString) (ru : ResolvedUser)
    (user : find str_discrete name cur.users ≡ some ru) where
  rebuild_settles :
      (rotates : Map GoString ResolvedUpstream → ResolvedUser → Bool)
      → rebuild_with decrypt rotates fails now (some f) s ≡ ok s'
      → (if rotates ups ru then CutOff ups ru s'.0 name else CarriedOn ups ru s'.0 name)
  rebuild_settles rotates h =
      let o = rebuild_outcome decrypt rotates fails now (some f) s s' h in
      let same_ups : o.upstreams ≡ ups = ok_eq (sym o.read ∙ read) in
      let same_cur : o.cur ≡ cur = some_eq (sym o.was ∙ was) in
      subst
        (λ (x : Core × W).
          if rotates ups ru then CutOff ups ru x.0 name else CarriedOn ups ru x.0 name)
        (sym (
          subst₂
            (λ (u : Map GoString ResolvedUpstream) (k : RoutingState).
              s' ≡ rebuild_result (rotates u) u k s.0.groups f s.1 now s.0.db)
            same_ups same_cur o.result))
        (settled (rotates ups) ups cur s.0.groups live.groups_ok (live.state_live cur was) f s.1 now
          s.0.db name ru user)

  -- After RebuildForUpstreamChange with a callback, each user that mapped to the changed upstream
  -- has its old group cancelled and a live new group over the upstreams of the database; each other
  -- user is refreshed under its old group, which stays live.
  pub upstream_change_settles :
      (changed_id : GoString)
      → rebuild_for_upstream_change decrypt changed_id fails now (some f) s ≡ ok s'
      → (if str_eq ru.upstream_id changed_id
          then CutOff ups ru s'.0 name
          else CarriedOn ups ru s'.0 name)
  unfolding maps_to
  upstream_change_settles changed_id h =
      rebuild_settles (λ _. maps_to changed_id)
        (change_rebuilds decrypt changed_id fails now (some f) s s' h)

  -- After RebuildAfterSync with a callback, each user whose upstream is gone and who was not broken
  -- before has its old group cancelled; each other user is refreshed under its old, live group.
  pub sync_settles :
      rebuild_after_sync decrypt fails now (some f) s ≡ ok s'
      → (if newly_broken ups ru then CutOff ups ru s'.0 name else CarriedOn ups ru s'.0 name)
  sync_settles h = rebuild_settles newly_broken (unfold rebuild_after_sync in h)
