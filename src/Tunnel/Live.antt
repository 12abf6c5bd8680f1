-- ===== src/Tunnel/Live.antt =====
-- Acquire against the routing core: in every state that the core reaches, a granted connection
-- gets a cancel group that is still live.
use pio.Base.{◌≡◌, ap, sym, false, Option, some, GoString, arith, ◌∙◌, Option-cases, inl, inr}
use pio.Routing.State.{RoutingState, Core, is_done}
use pio.Store.{Tables}
use pio.Routing.Reach.{new_core, IsLive, Reach, Reach-IsLive}
use pio.Tunnel.Acquire.{Grant, granted, acquire}
use pio.Tunnel.Grants.{by_user, by_name, acquire_iff_Opens}

opened_live :
    (c : Core) (live : IsLive c) (st : RoutingState)
    → c.routing_state ≡ some st
    → (name password : GoString) (g : Grant) → acquire (some st) name password ≡ granted g
    → is_done c.groups g.cancel_group ≡ false
opened_live c live st e name password g h = elim ((acquire_iff_Opens st name password g).0 h) [
  | by_user u found p b up pw k ↦ rw (← k) ((live.state_live st e).user_live name u found).1
  | by_name no_own pw r found up q k ↦ rw (← k) ((live.state_live st e).route_live name r found).1
]

module _ (decrypt : GoString → GoString → Option GoString) {W : Type 0} where
  -- Whatever hydrates, swaps, rebuilds and other writes came before, a grant carries a cancel group
  -- that is not cancelled.
  pub granted_live :
      (db : Tables) (w : W) (s : Core × W)
      → Reach decrypt (new_core db, w) s
      → (name password : GoString) (g : Grant) → acquire s.0.routing_state name password ≡ granted g
      → is_done s.0.groups g.cancel_group ≡ false
  granted_live db w s r name password g h = elim (Option-cases s.0.routing_state) [
    | inl e ↦ absurd (unfold acquire in ground arith)
    | inr (st, e) ↦
        opened_live s.0 (Reach-IsLive decrypt db w r) st e name password g
          (ap (λ x. acquire x name password) (sym e) ∙ h)
  ]
