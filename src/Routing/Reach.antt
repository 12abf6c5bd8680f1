-- ===== src/Routing/Reach.antt =====
-- The core as a state machine: Hydrate, the swap and the two rebuilds in any order, with other writes
-- to the database and to the callers' world in between. Hydrate takes no mutex: the tables that its
-- queries have read are any tables, and its step is the store of the snapshot.
use pio.Base.{ℕ, ◌≡◌, ◌∙◌, refl, sym, Bool, none, some, [], GoString, arith, Option, subst, some_eq}
use pio.Base.Map.{Map}
use pio.Model.{ResolvedUpstream}
use pio.Store.{ok, Tables}
use pio.Routing.State.{ResolvedUser, RoutingState, Core}
use pio.Routing.Build.{HydrateFaults, hydrate_from}
use pio.Routing.Swap.{SwapRun, swap_user_mapping}
use pio.Routing.Rebuild.{
  BrokenInfo, newly_broken, maps_to, rebuild_with, rebuild_after_sync, rebuild_for_upstream_change,
}
use pio.Routing.Live.{GroupsOk, StateIsLive, hydrate-GroupsOk, hydrated-StateIsLive}
use pio.Routing.LiveRebuild.{rebuilt-GroupsOk, rebuilt-StateIsLive}
use pio.Routing.Replace.{swapped-GroupsOk, swapped-StateIsLive}
use pio.Routing.Outcomes.{swap_outcome, remapped_group, hydrate_outcome, rebuild_outcome}

-- NewCore: no snapshot, no group.
abbrev pub new_core : Tables → Core
new_core db = record { db = db; routing_state = none; groups = record { next = 0; cancelled = [] } }

pub record IsLive (c : Core) : Type 0 where
  pub groups_ok : GroupsOk c.groups
  pub state_live : (st : RoutingState) → c.routing_state ≡ some st → StateIsLive st c.groups

IsLive-of :
    (c : Core) (st : RoutingState)
    → c.routing_state ≡ some st
    → GroupsOk c.groups
    → StateIsLive st c.groups
    → IsLive c
IsLive-of c st e good live = record {
  groups_ok = good;
  state_live = λ st' e'. subst (λ x. StateIsLive x c.groups) (some_eq (sym e ∙ e')) live;
}

hydrate-IsLive :
    (decrypt : GoString → GoString → Option GoString) (faults : HydrateFaults)
    (listed named keyed : Tables) (now later : ℕ) (c c' : Core)
    → hydrate_from decrypt faults listed named keyed now later c ≡ ok c'
    → IsLive c
    → IsLive c'
hydrate-IsLive decrypt faults listed named keyed now later c c' h live =
    let o = hydrate_outcome decrypt faults listed named keyed now later c c' h in
    subst IsLive (sym o.result) (
      IsLive-of _ _ refl (hydrate-GroupsOk o.upstreams named.local_users c.groups live.groups_ok)
        (hydrated-StateIsLive o.upstreams named.local_users c.groups live.groups_ok o.pwd _ later))

new_core-IsLive : (db : Tables) → IsLive (new_core db)
new_core-IsLive db = record {
  groups_ok = record { bounded = λ k h. cc };
  state_live = λ st e. absurd (ground arith);
}

module _ (decrypt : GoString → GoString → Option GoString) {W : Type 0} where
  pub data Step (s s' : Core × W) : Type 0 where
    hydrating :
        (faults : HydrateFaults) (listed named keyed : Tables) (now later : ℕ)
        → hydrate_from decrypt faults listed named keyed now later s.0 ≡ ok s'.0
        → Step s s'
    swapping :
        (run : SwapRun) (on_cancel : Option (ResolvedUser → W → W)) (username new_id : GoString)
        → swap_user_mapping run on_cancel username new_id s ≡ ok s'
        → Step s s'
    syncing :
        (fails : Bool) (now : ℕ) (callback : Option (BrokenInfo → W → W))
        → rebuild_after_sync decrypt fails now callback s ≡ ok s'
        → Step s s'
    changing :
        (changed_id : GoString) (fails : Bool) (now : ℕ) (callback : Option (BrokenInfo → W → W))
        → rebuild_for_upstream_change decrypt changed_id fails now callback s ≡ ok s'
        → Step s s'
    writing : (db : Tables) → s'.0 ≡ record (s.0) { db = db } → Step s s'

  pub data Reach (s : Core × W) : Core × W → Type 0 where
    here : Reach s s
    next : {t u : Core × W} → Reach s t → Step t u → Reach s u

  swap-IsLive :
      (run : SwapRun) (on_cancel : Option (ResolvedUser → W → W)) (username new_id : GoString)
      (s s' : Core × W)
      → swap_user_mapping run on_cancel username new_id s ≡ ok s'
      → IsLive s.0
      → IsLive s'.0
  swap-IsLive run on_cancel username new_id s s' h live =
      let o = swap_outcome run on_cancel username new_id s s' h in
      let fresh = remapped_group o.cur o.old new_id s.0.groups.next o.new o.db_id o.mapped in
      let cur_live = live.state_live o.cur o.was in
      subst (λ (x : Core × W). IsLive x.0) (sym o.result)
        (IsLive-of _ _ refl
          (swapped-GroupsOk o.cur s.0.groups live.groups_ok cur_live username o.new fresh)
          (swapped-StateIsLive o.cur s.0.groups live.groups_ok cur_live username o.new fresh
            run.now))

  rebuild-IsLive :
      (rotates : Map GoString ResolvedUpstream → ResolvedUser → Bool) (fails : Bool) (now : ℕ)
      (callback : Option (BrokenInfo → W → W)) (s s' : Core × W)
      → rebuild_with decrypt rotates fails now callback s ≡ ok s'
      → IsLive s.0
      → IsLive s'.0
  rebuild-IsLive rotates fails now callback s s' h live =
      let o = rebuild_outcome decrypt rotates fails now callback s s' h in
      let cur_live = live.state_live o.cur o.was in
      subst (λ (x : Core × W). IsLive x.0) (sym o.result)
        (IsLive-of _ _ refl
          (rebuilt-GroupsOk (rotates o.upstreams) o.upstreams o.cur s.0.groups live.groups_ok
            cur_live callback s.1)
          (rebuilt-StateIsLive (rotates o.upstreams) o.upstreams o.cur s.0.groups live.groups_ok
            cur_live callback s.1 now))

  pub change_rebuilds :
      (changed_id : GoString) (fails : Bool) (now : ℕ) (callback : Option (BrokenInfo → W → W))
      (s s' : Core × W)
      → rebuild_for_upstream_change decrypt changed_id fails now callback s ≡ ok s'
      → rebuild_with decrypt (λ _. maps_to changed_id) fails now callback s ≡ ok s'
  unfolding rebuild_for_upstream_change
  change_rebuilds changed_id fails now callback s s' h = ground arith

  Step-IsLive : {s s' : Core × W} → Step s s' → IsLive s.0 → IsLive s'.0
  Step-IsLive {s} {s'} (hydrating faults listed named keyed now later h) live =
      hydrate-IsLive decrypt faults listed named keyed now later s.0 s'.0 h live
  Step-IsLive {s} {s'} (swapping run cb name id h) live = swap-IsLive run cb name id s s' h live
  Step-IsLive {s} {s'} (syncing fails now cb h) live =
      rebuild-IsLive newly_broken fails now cb s s' (unfold rebuild_after_sync in h) live
  Step-IsLive {s} {s'} (changing id fails now cb h) live =
      rebuild-IsLive (λ _. maps_to id) fails now cb s s' (change_rebuilds id fails now cb s s' h)
        live
  Step-IsLive {s} {s'} (writing db e) live =
      subst IsLive (sym e) (record { groups_ok = live.groups_ok; state_live = live.state_live })

  -- Whatever operations came before, every user and every route of the snapshot has a cancel group that
  -- is not cancelled, no two users, no two routes, and no user and route share one, and each group that
  -- is cancelled has a number below the next one.
  pub Reach-IsLive : (db : Tables) (w : W) {s : Core × W} → Reach (new_core db, w) s → IsLive s.0
  Reach-IsLive db w here = new_core-IsLive db
  Reach-IsLive db w (next r st) = Step-IsLive st (Reach-IsLive db w r)
