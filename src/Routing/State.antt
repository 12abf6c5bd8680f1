-- ===== src/Routing/State.antt =====
-- internal/routing/routing.go: the routing snapshot and its cancel groups. A *CancelGroup is the
-- number of its allocation; `cancelled` lists the groups whose context is done. Every ResolvedUser
-- and DisplayNameRoute is built with a group, so the pointer is never nil.
use pio.Base.{ℕ, ◌+◌, Bool, Option, List, ◌∷◌, GoString}
pub use pio.Base.{among}
pub use pio.Base.Int.{u64}
use pio.Base.Map.{Map}
use pio.Model.{UpstreamProxy, ResolvedUpstream}
use pio.Store.{Tables}

pub record Groups : Type 0 where
  pub next : ℕ
  pub cancelled : List ℕ

unfoldable pub new_cancel_group : Groups → ℕ × Groups
new_cancel_group g = (g.next, record g { next = g.next + 1 })

-- `Cancel`: idempotent, and of this group alone.
unfoldable pub cancel : ℕ → Groups → Groups
cancel id g = record g { cancelled = id ∷ g.cancelled }

-- Whether the group's Context() is done.
abbrev pub is_done : Groups → ℕ → Bool
is_done g id = among id g.cancelled

-- `upstream` is the pointer, nil for a user without an upstream.
pub record ResolvedUser : Type 0 where
  pub username : GoString
  pub password_plain : GoString
  pub upstream_id : GoString
  pub upstream : Option UpstreamProxy
  pub upstream_pwd : GoString
  pub broken : Bool
  pub cancel_group : ℕ

pub record DisplayNameRoute : Type 0 where
  pub upstream : Option UpstreamProxy
  pub upstream_pwd : GoString
  pub cancel_group : ℕ

pub record RoutingState : Type 0 where
  pub users : Map GoString ResolvedUser
  pub upstreams : Map GoString ResolvedUpstream
  pub by_display_name : Map GoString DisplayNameRoute
  pub universal_pwd : GoString
  pub version : ℕ
  pub built_at : ℕ

-- The core with the database and the groups that it works on.
pub record Core : Type 0 where
  pub db : Tables
  pub routing_state : Option RoutingState
  pub groups : Groups
