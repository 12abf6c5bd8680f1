-- ===== src/Routing/Tests.antt =====
-- Runs of the routing core on the rows of the fixtures.
use pio.Base.{
  ◌≡◌, refl, true, false, Option, none, some, List, [], ◌∷◌, GoString, codes, str_eq, str_discrete,
  ℕ_discrete, if◌then◌else◌, ◌↔◌,
}
use pio.Base.Map.{Map, find, put, remove}
use pio.Model.{ResolvedUpstream}
use pio.Store.{
  has_row, Result, ok, err, update_local_user_mapping, resolve_rows, list_all_resolved_upstreams,
  load_universal_proxy_password,
}
use pio.Routing.State.{new_cancel_group, cancel, ResolvedUser, RoutingState, Core}
use pio.Routing.Build.{
  hydrate_from, count_names, add_routes, build_display_name_routes, resolve_user, resolve_users,
  hydrate,
}
use pio.Routing.Swap.{remapped, persist, swap_user_mapping}
use pio.Routing.Rebuild.{
  BrokenInfo, refresh, newly_broken, maps_to, rebuild_users, notify, rebuild_with,
  rebuild_after_sync, rebuild_for_upstream_change,
}
use pio.Routing.Reach.{
  new_core, IsLive, Reach, here, next, hydrating, swapping, writing, Reach-IsLive,
}
use pio.Routing.HotSwitch.{CutOff, upstream_change_settles, sync_settles}
use pio.Routing.Durable.{SameUsers, booting, remapping, restart_keeps_users}
use pio.Routing.SwapUser.{Swappable, OneUserSwapped, swap_succeeds_iff, swap_leaves_groups}
use pio.Routing.Routes.{target, named, sole, route_iff_unambiguous}
use pio.Fixtures.{uk, tables, open_cipher, no_faults, no_swap_faults, core_of, hydrated, state_of}

-- A world that records the callbacks.
abbrev callback : Option (BrokenInfo → List GoString → List GoString)
callback = some (λ b w. b.username ∷ w)

abbrev on_cancel : Option (ResolvedUser → List GoString → List GoString)
on_cancel = some (λ u w. u.upstream_id ∷ w)

abbrev booted : Core × List GoString
booted = (hydrated, [])

abbrev result_of : Result (Core × List GoString) → Core × List GoString
result_of (ok s) = s
result_of (err _) = booted

boots : hydrate open_cipher no_faults 7 8 (new_core tables) ≡ ok hydrated
unfolding hydrate_from list_all_resolved_upstreams resolve_rows load_universal_proxy_password
    resolve_users resolve_user build_display_name_routes count_names add_routes new_cancel_group
    find put remove str_discrete ℕ_discrete
boots = refl

abbrev old : RoutingState
old = state_of hydrated.routing_state

abbrev user_of : Option ResolvedUser → ResolvedUser
user_of (some u) = u
user_of none = record {
  username = [];
  password_plain = [];
  upstream_id = [];
  upstream = none;
  upstream_pwd = [];
  broken = true;
  cancel_group = 0;
}

abbrev old_ann : ResolvedUser
old_ann = user_of (find str_discrete (codes "ann") old.users)

old_state : hydrated.routing_state ≡ some old
unfolding hydrate_from list_all_resolved_upstreams resolve_rows load_universal_proxy_password
    resolve_users resolve_user build_display_name_routes count_names add_routes new_cancel_group
    find put remove str_discrete ℕ_discrete
old_state = refl

ann_stands : find str_discrete (codes "ann") old.users ≡ some old_ann
unfolding hydrate_from list_all_resolved_upstreams resolve_rows load_universal_proxy_password
    resolve_users resolve_user build_display_name_routes count_names add_routes new_cancel_group
    find put remove str_discrete ℕ_discrete
ann_stands = refl

upstreams_read : list_all_resolved_upstreams open_cipher false hydrated.db ≡ ok old.upstreams
unfolding hydrate_from list_all_resolved_upstreams resolve_rows load_universal_proxy_password
    resolve_users resolve_user build_display_name_routes count_names add_routes new_cancel_group
    find put remove str_discrete ℕ_discrete
upstreams_read = refl

booted-Reach : Reach open_cipher (new_core tables, []) booted
booted-Reach = next here (hydrating no_faults tables tables tables 7 8 boots)

booted-IsLive : IsLive hydrated
booted-IsLive = Reach-IsLive open_cipher tables [] booted-Reach

-- An edit of the upstream that ann maps to.
abbrev after_change : Core × List GoString
after_change =
    result_of (rebuild_for_upstream_change open_cipher (codes "us-1") false 9 callback booted)

changes :
    rebuild_for_upstream_change open_cipher (codes "us-1") false 9 callback booted ≡ ok after_change
unfolding hydrate_from list_all_resolved_upstreams resolve_rows load_universal_proxy_password
    resolve_users resolve_user build_display_name_routes count_names add_routes new_cancel_group
    find put remove str_discrete ℕ_discrete rebuild_for_upstream_change rebuild_after_sync
    rebuild_with rebuild_users refresh newly_broken maps_to notify cancel
changes = refl

upstream_change_settles_example : CutOff old.upstreams old_ann after_change.0 (codes "ann")
unfolding hydrate_from list_all_resolved_upstreams resolve_rows load_universal_proxy_password
    resolve_users resolve_user build_display_name_routes count_names add_routes new_cancel_group
    find put remove str_discrete ℕ_discrete
upstream_change_settles_example =
    upstream_change_settles open_cipher false 9 (λ b w. b.username ∷ w) booted after_change
      booted-IsLive old.upstreams upstreams_read old old_state (codes "ann") old_ann ann_stands
      (codes "us-1") changes

-- A sync that removed that upstream.
abbrev pruned : Core × List GoString
pruned = (record hydrated { db = record tables { upstream_proxies = uk ∷ [] } }, [])

abbrev left_upstreams : Map GoString ResolvedUpstream
left_upstreams = (codes "uk-1", record { upstream = uk; password = [] }) ∷ []

left_read : list_all_resolved_upstreams open_cipher false pruned.0.db ≡ ok left_upstreams
unfolding hydrate_from list_all_resolved_upstreams resolve_rows load_universal_proxy_password
    resolve_users resolve_user build_display_name_routes count_names add_routes new_cancel_group
    find put remove str_discrete ℕ_discrete
left_read = refl

pruned-IsLive : IsLive pruned.0
pruned-IsLive =
    Reach-IsLive open_cipher tables [] {s = pruned}
      (next booted-Reach (writing (record tables { upstream_proxies = uk ∷ [] }) refl))

abbrev after_sync : Core × List GoString
after_sync = result_of (rebuild_after_sync open_cipher false 9 callback pruned)

syncs : rebuild_after_sync open_cipher false 9 callback pruned ≡ ok after_sync
unfolding hydrate_from list_all_resolved_upstreams resolve_rows load_universal_proxy_password
    resolve_users resolve_user build_display_name_routes count_names add_routes new_cancel_group
    find put remove str_discrete ℕ_discrete rebuild_for_upstream_change rebuild_after_sync
    rebuild_with rebuild_users refresh newly_broken maps_to notify cancel
syncs = refl

sync_settles_example : CutOff left_upstreams old_ann after_sync.0 (codes "ann")
unfolding hydrate_from list_all_resolved_upstreams resolve_rows load_universal_proxy_password
    resolve_users resolve_user build_display_name_routes count_names add_routes new_cancel_group
    find put remove str_discrete ℕ_discrete rebuild_for_upstream_change rebuild_after_sync
    rebuild_with rebuild_users refresh newly_broken maps_to notify cancel
sync_settles_example =
    sync_settles open_cipher false 9 (λ b w. b.username ∷ w) pruned after_sync pruned-IsLive
      left_upstreams left_read old old_state (codes "ann") old_ann ann_stands syncs

abbrev after_swap : Core × List GoString
after_swap =
    result_of (swap_user_mapping no_swap_faults on_cancel (codes "ann") (codes "uk-1") booted)

swaps :
    swap_user_mapping no_swap_faults on_cancel (codes "ann") (codes "uk-1") booted ≡ ok after_swap
unfolding swap_user_mapping remapped persist update_local_user_mapping hydrate_from
    list_all_resolved_upstreams resolve_rows load_universal_proxy_password resolve_users
    resolve_user build_display_name_routes count_names add_routes new_cancel_group find put remove
    str_discrete ℕ_discrete has_row
swaps = refl

Reach-IsLive_example : IsLive after_swap.0
Reach-IsLive_example =
    Reach-IsLive open_cipher tables []
      (next booted-Reach (swapping no_swap_faults on_cancel (codes "ann") (codes "uk-1") swaps))

swap_succeeds_iff_example :
    ((s' : Core × List GoString) × (swap_user_mapping no_swap_faults on_cancel
          (codes "ann")
          (codes "uk-1")
          booted
        ≡ ok s'))
    ↔ Swappable no_swap_faults (codes "ann") (codes "uk-1") hydrated
swap_succeeds_iff_example =
    swap_succeeds_iff no_swap_faults on_cancel (codes "ann") (codes "uk-1") booted

swap_leaves_groups_example :
    OneUserSwapped no_swap_faults on_cancel (codes "ann") (codes "uk-1") booted after_swap
swap_leaves_groups_example =
    swap_leaves_groups no_swap_faults on_cancel (codes "ann") (codes "uk-1") booted after_swap swaps

abbrev restarted : Core
restarted = core_of (hydrate open_cipher no_faults 11 12 (new_core after_swap.0.db))

restarts : hydrate open_cipher no_faults 11 12 (new_core after_swap.0.db) ≡ ok restarted
unfolding swap_user_mapping remapped persist update_local_user_mapping hydrate_from
    list_all_resolved_upstreams resolve_rows load_universal_proxy_password resolve_users
    resolve_user build_display_name_routes count_names add_routes new_cancel_group find put remove
    str_discrete ℕ_discrete has_row
restarts = refl

restart_keeps_users_example : SameUsers after_swap.0 restarted
restart_keeps_users_example =
    restart_keeps_users open_cipher after_swap
      (remapping no_swap_faults on_cancel (codes "ann") (codes "uk-1")
        (booting no_faults 7 8 (new_core tables) boots) swaps)
      no_faults 11 12 restarted restarts

route_iff_unambiguous_example :
    target
      (find str_discrete (codes "UK") (build_display_name_routes old.upstreams hydrated.groups).0)
    ≡ (if str_eq (codes "UK") [] then none else sole (named (codes "UK") old.upstreams))
route_iff_unambiguous_example = route_iff_unambiguous (codes "UK") old.upstreams hydrated.groups
