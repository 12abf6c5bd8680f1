-- ===== src/Routing/Live.antt =====
-- Cancel groups and the snapshot: no connection is handed a group that is already cancelled.
use pio.Base.{
  ℕ, ◌≤◌, ◌<◌, ◌≡◌, ◌≢◌, ◌∙◌, sym, true, false, some, List, GoString, str_discrete, arith,
  Bool-cases, inl, inr, subst,
}
use pio.Base.Map.{Map, find, UniqueKeys}
use pio.Model.{ResolvedUpstream, LocalUser}
use pio.Routing.State.{Groups, ResolvedUser, DisplayNameRoute, RoutingState, is_done, among}
use pio.Routing.Build.{resolve_users, build_display_name_routes}
use pio.Routing.Fresh.{
  cancelled-resolve_users, next-resolve_users, resolve_users-UniqueKeys, resolve_users_range,
  resolve_users_distinct,
}
use pio.Routing.FreshRoutes.{
  cancelled-build_display_name_routes, next-build_display_name_routes,
  build_display_name_routes_range, build_display_name_routes_distinct,
}

pub record GroupsOk (g : Groups) : Type 0 where
  pub bounded : (k : ℕ) → is_done g k ≡ true → k < g.next

pub record StateIsLive (st : RoutingState) (g : Groups) : Type 0 where
  pub unique : UniqueKeys str_discrete st.users
  pub user_live :
      (n : GoString) (u : ResolvedUser)
      → find str_discrete n st.users ≡ some u
      → (u.cancel_group < g.next) × (is_done g u.cancel_group ≡ false)
  pub user_distinct :
      (n m : GoString) (u v : ResolvedUser)
      → find str_discrete n st.users ≡ some u
      → find str_discrete m st.users ≡ some v
      → u.cancel_group ≡ v.cancel_group
      → n ≡ m
  pub route_live :
      (n : GoString) (r : DisplayNameRoute)
      → find str_discrete n st.by_display_name ≡ some r
      → (r.cancel_group < g.next) × (is_done g r.cancel_group ≡ false)
  pub route_distinct :
      (n m : GoString) (r q : DisplayNameRoute)
      → find str_discrete n st.by_display_name ≡ some r
      → find str_discrete m st.by_display_name ≡ some q
      → r.cancel_group ≡ q.cancel_group
      → n ≡ m
  pub route_apart :
      (n m : GoString) (u : ResolvedUser) (r : DisplayNameRoute)
      → find str_discrete n st.users ≡ some u
      → find str_discrete m st.by_display_name ≡ some r
      → u.cancel_group ≢ r.cancel_group

pub fresh_not_done : {g : Groups} → GroupsOk g → (k : ℕ) → g.next ≤ k → is_done g k ≡ false
fresh_not_done {g} k-ok k h = elim (Bool-cases (is_done g k)) [
  | inl e ↦ absurd (omega (arith, k-ok.bounded k e))
  | inr e ↦ e
]

pub GroupsOk-later :
    (g g' : Groups) → g'.cancelled ≡ g.cancelled → g.next ≤ g'.next → GroupsOk g → GroupsOk g'
GroupsOk-later g g' e h good = record {
  bounded = λ k d. let old = good.bounded k (subst (λ l. among k l ≡ true) e d) in omega arith;
}

same_done :
    (g g' : Groups) (k : ℕ)
    → g'.cancelled ≡ g.cancelled
    → is_done g k ≡ false
    → is_done g' k ≡ false
same_done g g' k e h = subst (λ l. among k l ≡ false) (sym e) h

module _ (ups : Map GoString ResolvedUpstream) (rows : List LocalUser) (g : Groups)
    (good : GroupsOk g) where
  abbrev g1 : Groups
  g1 = (resolve_users ups rows g).1

  abbrev g2 : Groups
  g2 = (build_display_name_routes ups g1).1

  same : g2.cancelled ≡ g.cancelled
  same = cancelled-build_display_name_routes ups g1 ∙ cancelled-resolve_users ups rows g

  pub hydrate-GroupsOk : GroupsOk g2
  hydrate-GroupsOk =
      GroupsOk-later g g2 same
        (omega (arith, next-resolve_users ups rows g, next-build_display_name_routes ups g1)) good

  -- A snapshot built from the database has only new groups.
  pub hydrated-StateIsLive :
      (pwd : GoString) (version built : ℕ)
      → StateIsLive
          (record {
            users = (resolve_users ups rows g).0;
            upstreams = ups;
            by_display_name = (build_display_name_routes ups g1).0;
            universal_pwd = pwd;
            version = version;
            built_at = built;
          })
          g2
  hydrated-StateIsLive pwd version built = record {
    unique = resolve_users-UniqueKeys ups rows g;
    user_live = λ n u h.
        let (a, b) = resolve_users_range ups rows g n u h in
        (
          omega (arith, next-build_display_name_routes ups g1),
          same_done g g2 u.cancel_group same (fresh_not_done good u.cancel_group a),
        );
    user_distinct = resolve_users_distinct ups rows g;
    route_live = λ n r h.
        let (a, b) = build_display_name_routes_range ups g1 n r h in
        (
          b,
          same_done g g2 r.cancel_group same
              (fresh_not_done good r.cancel_group (omega (arith, next-resolve_users ups rows g))),
        );
    route_distinct = build_display_name_routes_distinct ups g1;
    route_apart = λ n m u r hu hr e. omega (
      arith,
      resolve_users_range ups rows g n u hu,
      build_display_name_routes_range ups g1 m r hr,
    );
  }
