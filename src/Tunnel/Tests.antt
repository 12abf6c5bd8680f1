-- ===== src/Tunnel/Tests.antt =====
-- Runs of Acquire over the hydrated fixtures.
use pio.Base.{◌≡◌, ◌↔◌, refl, false, some, [], codes, str_discrete, ℕ_discrete}
use pio.Base.Map.{find, put, remove}
use pio.Store.{
  scanned, ok, resolve_rows, list_all_resolved_upstreams, load_universal_proxy_password,
}
use pio.Routing.State.{ResolvedUser, RoutingState, is_done, new_cancel_group}
use pio.Routing.Build.{
  hydrate_from, count_names, add_routes, build_display_name_routes, resolve_user, resolve_users,
  hydrate,
}
use pio.Routing.Reach.{new_core, Reach, here, next, hydrating}
use pio.Tunnel.Acquire.{bad_password, Grant, granted, refused, user_answer, route_answer, acquire}
use pio.Tunnel.Grants.{Opens, OwnPassword, UniversalPassword, acquire_iff_Opens, bad_password_iff}
use pio.Tunnel.Live.{granted_live}
use pio.Fixtures.{us, uk, tables, open_cipher, no_faults, hydrated, state_of}

abbrev state : RoutingState
state = state_of hydrated.routing_state

boots : hydrate open_cipher no_faults 7 8 (new_core tables) ≡ ok hydrated
unfolding hydrate_from list_all_resolved_upstreams resolve_rows load_universal_proxy_password
boots = refl

booted-Reach : Reach open_cipher {W = Unit} (new_core tables, tt) (hydrated, tt)
booted-Reach = next here (hydrating no_faults tables tables tables 7 8 boots)

-- ann's own credentials.
abbrev ann_grant : Grant
ann_grant = record { upstream = scanned us; upstream_pwd = codes "k1"; cancel_group = 0 }

ann_granted : acquire hydrated.routing_state (codes "ann") (codes "pa") ≡ granted ann_grant
unfolding acquire user_answer route_answer hydrate_from list_all_resolved_upstreams resolve_rows
    load_universal_proxy_password resolve_users resolve_user build_display_name_routes count_names
    add_routes new_cancel_group find put remove str_discrete ℕ_discrete
ann_granted = refl

-- The universal password with a display name.
uk_by_name :
    acquire hydrated.routing_state (codes "UK") (codes "all")
    ≡ granted (record { upstream = uk; upstream_pwd = []; cancel_group = 3 })
unfolding acquire user_answer route_answer hydrate_from list_all_resolved_upstreams resolve_rows
    load_universal_proxy_password resolve_users resolve_user build_display_name_routes count_names
    add_routes new_cancel_group find put remove str_discrete ℕ_discrete
uk_by_name = refl

granted_live_example : is_done hydrated.groups ann_grant.cancel_group ≡ false
granted_live_example =
    granted_live open_cipher tables tt (hydrated, tt) booted-Reach (codes "ann") (codes "pa")
      ann_grant ann_granted

acquire_iff_Opens_example :
    (acquire (some state) (codes "ann") (codes "pa") ≡ granted ann_grant)
    ↔ Opens state (codes "ann") (codes "pa") ann_grant
acquire_iff_Opens_example = acquire_iff_Opens state (codes "ann") (codes "pa") ann_grant

bad_password_iff_example :
    (acquire (some state) (codes "ann") (codes "no") ≡ refused bad_password) ↔ (
      ((u : ResolvedUser) × (find str_discrete (codes "ann") state.users ≡ some u))
      × (¬ OwnPassword state (codes "ann") (codes "no"))
      × (¬ UniversalPassword state (codes "no")))
bad_password_iff_example = bad_password_iff state (codes "ann") (codes "no")
