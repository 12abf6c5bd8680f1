-- ===== src/Routing/FreshRoutes.antt =====
-- The cancel groups of the display-name routes are new ones, and different routes get different groups.
use pio.Base.{
  ℕ, ◌≤◌, ◌<◌, ◌≡◌, ◌∙◌, refl, sym, ap, some, [], ◌∷◌, GoString, str_discrete, arith, inl, inr,
  Bool-cases, str_eq, ◌==◌, [],
}
use pio.Base.Map.{Map, find, put, find-put}
use pio.Model.{ResolvedUpstream}
use pio.Routing.State.{Groups, DisplayNameRoute, new_cancel_group}
use pio.Routing.Build.{count_of, add_routes, count_names, build_display_name_routes}
use pio.Routing.Fresh.{put_cases}

module _ (counts : Map GoString ℕ) where
  cancelled-add_routes :
      (rs : Map GoString ResolvedUpstream) (g : Groups)
      → (add_routes counts rs g).1.cancelled ≡ g.cancelled
  unfolding add_routes new_cancel_group
  cancelled-add_routes [] g = refl
  cancelled-add_routes ((id, up) ∷ rs) g =
      ground (arith, cancelled-add_routes rs g, cancelled-add_routes rs (new_cancel_group g).1)

  next-add_routes :
      (rs : Map GoString ResolvedUpstream) (g : Groups) → g.next ≤ (add_routes counts rs g).1.next
  unfolding add_routes new_cancel_group
  next-add_routes [] g = omega arith
  next-add_routes ((id, up) ∷ rs) g =
      ground (arith, next-add_routes rs g, next-add_routes rs (new_cancel_group g).1)

  add_routes_range :
      (rs : Map GoString ResolvedUpstream) (g : Groups) (name : GoString) (r : DisplayNameRoute)
      → find str_discrete name (add_routes counts rs g).0 ≡ some r
      → (g.next ≤ r.cancel_group) × (r.cancel_group < (add_routes counts rs g).1.next)
  unfolding add_routes new_cancel_group find
  add_routes_range [] g name r h = absurd (ground arith)
  add_routes_range ((id, up) ∷ rs) g name r h =
      let g' = (new_cancel_group g).1 in
      ground (
        arith,
        add_routes_range rs g name r,
        add_routes_range rs g' name r,
        next-add_routes rs g',
        find-put str_discrete up.display_name name
            (record {
              upstream = some up.upstream;
              upstream_pwd = up.password;
              cancel_group = g.next;
            })
            (add_routes counts rs g').0,
      )

  -- One more route, with a group below those of the routes behind it.
  put_route_distinct :
      (key : GoString) (new : DisplayNameRoute) (m : Map GoString DisplayNameRoute)
      (n n' : GoString) (r r' : DisplayNameRoute)
      → ((j : GoString) (q : DisplayNameRoute)
          → find str_discrete j m ≡ some q
          → new.cancel_group < q.cancel_group)
      → ((j j' : GoString) (q q' : DisplayNameRoute)
          → find str_discrete j m ≡ some q
          → find str_discrete j' m ≡ some q'
          → q.cancel_group ≡ q'.cancel_group
          → j ≡ j')
      → find str_discrete n (put str_discrete key new m) ≡ some r
      → find str_discrete n' (put str_discrete key new m) ≡ some r'
      → r.cancel_group ≡ r'.cancel_group
      → n ≡ n'
  put_route_distinct key new m n n' r r' low rest h h' e = elim (put_cases key n new r m h) [
    | inl (p, er) ↦ elim (put_cases key n' new r' m h') [
      | inl (q, _) ↦ sym p ∙ q
      | inr (q, er') ↦
          absurd (omega (arith, low n' r' er', ap (λ (x : DisplayNameRoute). x.cancel_group) er))
    ]
    | inr (p, er) ↦ elim (put_cases key n' new r' m h') [
      | inl (q, er') ↦
          absurd (omega (arith, low n r er, ap (λ (x : DisplayNameRoute). x.cancel_group) er'))
      | inr (q, er') ↦ rest n n' r r' er er' e
    ]
  ]

  add_routes_distinct :
      (rs : Map GoString ResolvedUpstream) (g : Groups) (n m : GoString) (r q : DisplayNameRoute)
      → find str_discrete n (add_routes counts rs g).0 ≡ some r
      → find str_discrete m (add_routes counts rs g).0 ≡ some q
      → r.cancel_group ≡ q.cancel_group
      → n ≡ m
  unfolding add_routes new_cancel_group
  add_routes_distinct [] g n m r q hr hq e = absurd (unfold find in ground arith)
  add_routes_distinct ((id, up) ∷ rs) g n m r q hr hq e =
      let g' = (new_cancel_group g).1 in
      elim (Bool-cases (str_eq up.display_name [])) [
        | inl y ↦ add_routes_distinct rs g n m r q (ground arith) (ground arith) e
        | inr x ↦ elim (Bool-cases (count_of up.display_name counts == 1)) [
          | inr y ↦ add_routes_distinct rs g n m r q (ground arith) (ground arith) e
          | inl y ↦
              put_route_distinct up.display_name
                (record {
                  upstream = some up.upstream;
                  upstream_pwd = up.password;
                  cancel_group = g.next;
                })
                (add_routes counts rs g').0 n m r q
                (λ j k h. let (a, b) = add_routes_range rs g' j k h in omega arith)
                (λ j j' k k' h h' s. add_routes_distinct rs g' j j' k k' h h' s) (ground arith)
                (ground arith) e
        ]
      ]

pub cancelled-build_display_name_routes :
    (ups : Map GoString ResolvedUpstream) (g : Groups)
    → (build_display_name_routes ups g).1.cancelled ≡ g.cancelled
unfolding build_display_name_routes
cancelled-build_display_name_routes ups g = cancelled-add_routes (count_names ups) ups g

pub next-build_display_name_routes :
    (ups : Map GoString ResolvedUpstream) (g : Groups)
    → g.next ≤ (build_display_name_routes ups g).1.next
unfolding build_display_name_routes
next-build_display_name_routes ups g = next-add_routes (count_names ups) ups g

pub build_display_name_routes_range :
    (ups : Map GoString ResolvedUpstream) (g : Groups) (name : GoString) (r : DisplayNameRoute)
    → find str_discrete name (build_display_name_routes ups g).0 ≡ some r
    → (g.next ≤ r.cancel_group) × (r.cancel_group < (build_display_name_routes ups g).1.next)
unfolding build_display_name_routes
build_display_name_routes_range ups g = add_routes_range (count_names ups) ups g

pub build_display_name_routes_distinct :
    (ups : Map GoString ResolvedUpstream) (g : Groups) (n m : GoString) (r q : DisplayNameRoute)
    → find str_discrete n (build_display_name_routes ups g).0 ≡ some r
    → find str_discrete m (build_display_name_routes ups g).0 ≡ some q
    → r.cancel_group ≡ q.cancel_group
    → n ≡ m
unfolding build_display_name_routes
build_display_name_routes_distinct ups g = add_routes_distinct (count_names ups) ups g
