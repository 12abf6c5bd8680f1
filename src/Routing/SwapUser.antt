-- ===== src/Routing/SwapUser.antt =====
-- SwapUserMapping: when it succeeds, and what it leaves.
use pio.Base.{
  ◌+◌, ◌≡◌, ◌↔◌, ◌⊎◌, ◌++◌, ◌∷◌, [], inl, inr, refl, ◌∙◌, ap, arith, true, false, Option, some,
  Option-cases, GoString, str_discrete, str_eq,
}
use pio.Base.Map.{find}
use pio.Model.{ResolvedUpstream}
use pio.Store.{ok, Result-cases, has_user, has_row, update_local_user_mapping}
use pio.Routing.State.{ResolvedUser, RoutingState, Core, new_cancel_group, u64}
use pio.Routing.Swap.{SwapRun, remapped, remap_entry, persist, swapped, call, swap_user_mapping}
use pio.Routing.Replace.{replaced, find-replace_user}
use pio.Routing.Outcomes.{swap_outcome, remapped_group}
use pio.Routing.Rows.{persisted}

-- A hydrated core that knows the user and the target, a row for the user and one for the target, and
-- a driver that does not fail.
abbrev pub Swappable : SwapRun → GoString → GoString → Core → Type 0
Swappable run username new_id c =
    (cur : RoutingState) × (old : ResolvedUser) × (c.routing_state ≡ some cur)
    × (find str_discrete username cur.users ≡ some old)
    × ((new_id ≡ [])
        ⊎ ((up : ResolvedUpstream) × (find str_discrete new_id cur.upstreams ≡ some up)
            × (has_row up.id c.db.upstream_proxies ≡ true)))
    × (has_user username c.db.local_users ≡ true)
    × (run.begin_fails ≡ false)
    × (run.update_fails ≡ false)
    × (run.audit_fails ≡ false)
    × (run.commit_fails ≡ false)

-- One user has a new record with a fresh group; no group is cancelled.
abbrev pub OneUserSwapped :
    {W : Type 0}
    → SwapRun
    → Option (ResolvedUser → W → W)
    → GoString
    → GoString
    → Core × W
    → Core × W
    → Type 0
OneUserSwapped run on_cancel username new_id s s' =
    (cur st : RoutingState) × (old new : ResolvedUser) × (s.0.routing_state ≡ some cur)
    × (s'.0.routing_state ≡ some st)
    × (find str_discrete username cur.users ≡ some old)
    × ((name : GoString)
        → find str_discrete name st.users
          ≡ replaced (str_eq name username) new (find str_discrete name cur.users))
    × (new.cancel_group ≡ s.0.groups.next)
    × (st.version ≡ u64 (cur.version + 1))
    × (s'.0.db.audit_log
        ≡ s.0.db.audit_log ++ remap_entry username old.upstream_id new_id run.now ∷ [])
    × (s'.0.groups.cancelled ≡ s.0.groups.cancelled)
    × (s'.1 ≡ call on_cancel old s.1)

module _ {W : Type 0} (run : SwapRun) (on_cancel : Option (ResolvedUser → W → W))
    (username new_id : GoString) (s : Core × W) where
  Swappable-ok :
      (s' : Core × W)
      → swap_user_mapping run on_cancel username new_id s ≡ ok s'
      → Swappable run username new_id s.0
  unfolding remapped persist update_local_user_mapping
  Swappable-ok s' h =
      let o = swap_outcome run on_cancel username new_id s s' h in
      (
        o.cur,
        o.old,
        o.was,
        o.user,
        elim (str_discrete new_id []) [
          | yes p ↦ inl p
          | no p ↦ elim (Option-cases (find str_discrete new_id o.cur.upstreams)) [
            | inl e ↦ absurd (ground (arith, o.mapped))
            | inr (up, e) ↦ inr (up, e, ground (arith, o.mapped, o.stored))
          ]
        ],
        ground (arith, o.stored),
        ground (arith, o.stored),
        ground (arith, o.stored),
        ground (arith, o.stored),
        ground (arith, o.stored),
      )

  ok_of_Swappable :
      Swappable run username new_id s.0
      → (s' : Core × W) × (swap_user_mapping run on_cancel username new_id s ≡ ok s')
  unfolding swap_user_mapping remapped persist update_local_user_mapping new_cancel_group
  ok_of_Swappable (cur, old, was, user, inl e, row, b, u, a, k) =
      elim (Result-cases (swap_user_mapping run on_cancel username new_id s)) [
        | inl r ↦ r
        | inr (x, r) ↦ absurd (ground arith)
      ]
  ok_of_Swappable (cur, old, was, user, inr (up, e, known), row, b, u, a, k) =
      elim (Result-cases (swap_user_mapping run on_cancel username new_id s)) [
        | inl r ↦ r
        | inr (x, r) ↦ absurd (ground arith)
      ]

  -- SwapUserMapping succeeds exactly when the core is hydrated, the user and the target upstream are
  -- in the snapshot and have rows (or the target is empty and the user has one), and no driver call fails.
  pub swap_succeeds_iff :
      ((s' : Core × W) × (swap_user_mapping run on_cancel username new_id s ≡ ok s'))
      ↔ Swappable run username new_id s.0
  swap_succeeds_iff = (λ (s', h). Swappable-ok s' h, ok_of_Swappable)

  -- A successful swap writes one audit entry, gives the user alone a record with a fresh cancel
  -- group, adds one to the version, and hands the old record to the callback. It cancels no group:
  -- ending the old connections is left to the callback.
  pub swap_leaves_groups :
      (s' : Core × W)
      → swap_user_mapping run on_cancel username new_id s ≡ ok s'
      → OneUserSwapped run on_cancel username new_id s s'
  unfolding swapped new_cancel_group
  swap_leaves_groups s' h =
      let o = swap_outcome run on_cancel username new_id s s' h in
      let (_, _, log) =
        persisted run username o.db_id (remap_entry username o.old.upstream_id new_id run.now)
          s.0.db o.db o.stored in
      (
        o.cur,
        swapped o.cur username o.new run.now,
        o.old,
        o.new,
        o.was,
        ap (λ (x : Core × W). x.0.routing_state) o.result,
        o.user,
        find-replace_user username o.new o.cur.users,
        remapped_group o.cur o.old new_id s.0.groups.next o.new o.db_id o.mapped,
        refl,
        ap (λ (x : Core × W). x.0.db.audit_log) o.result ∙ log,
        ap (λ (x : Core × W). x.0.groups.cancelled) o.result,
        ap (λ (x : Core × W). x.1) o.result,
      )
