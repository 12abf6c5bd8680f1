-- ===== src/Routing/Routes.antt =====
-- The display-name index: a name is routable exactly when one upstream carries it.
use pio.Base.{
  ℕ, ◌+◌, ◌==◌, ◌≡◌, refl, Bool, true, false, Option, none, some, List, [], ◌∷◌, GoString,
  str_discrete, str_eq, arith, ite, length, if◌then◌else◌, ◌≢◌,
}
use pio.Base.Map.{Map, find, put, find-put}
use pio.Model.{UpstreamProxy, ResolvedUpstream}
use pio.Routing.State.{Groups, DisplayNameRoute, new_cancel_group}
use pio.Routing.Build.{count_of, count_names, add_routes, build_display_name_routes}

-- What a route leads to: the upstream and its password.
abbrev pub Target : Type 0
Target = Option UpstreamProxy × GoString

abbrev pub target : Option DisplayNameRoute → Option Target
target none = none
target (some r) = some (r.upstream, r.upstream_pwd)

-- The upstreams that carry a display name.
abbrev pub named : GoString → Map GoString ResolvedUpstream → List ResolvedUpstream
named name [] = []
named name ((id, up) ∷ rest) =
    let others = named name rest in if str_eq up.display_name name then up ∷ others else others

abbrev first : List ResolvedUpstream → Option Target
first [] = none
first (up ∷ ups) = some (some up.upstream, up.password)

-- The target of the only upstream of a list.
abbrev pub sole : List ResolvedUpstream → Option Target
sole (up ∷ []) = some (some up.upstream, up.password)
sole _ = none

count_of-put :
    (name key : GoString) (n : ℕ) (m : Map GoString ℕ)
    → count_of name (put str_discrete key n m) ≡ ite (str_discrete key name) n (count_of name m)
count_of-put name key n m = ground (arith, find-put str_discrete key name n m)

count_names-length :
    (name : GoString) (ups : Map GoString ResolvedUpstream)
    → name ≢ []
    → count_of name (count_names ups) ≡ length (named name ups)
unfolding count_names find
count_names-length name [] h = refl
count_names-length name ((id, up) ∷ ups) h = ground (
  arith,
  count_names-length name ups h,
  count_of-put name up.display_name (count_of up.display_name (count_names ups) + 1)
      (count_names ups),
)

abbrev routable : GoString → Map GoString ℕ → Bool
routable name counts = if str_eq name [] then false else count_of name counts == 1

find-add_routes :
    (counts : Map GoString ℕ) (name : GoString) (ups : Map GoString ResolvedUpstream) (g : Groups)
    → target (find str_discrete name (add_routes counts ups g).0)
      ≡ (if routable name counts then first (named name ups) else none)
unfolding add_routes find new_cancel_group
find-add_routes counts name [] g = ground arith
find-add_routes counts name ((id, up) ∷ ups) g =
    let g' = (new_cancel_group g).1 in
    ground (
      arith,
      find-add_routes counts name ups g,
      find-add_routes counts name ups g',
      find-put str_discrete up.display_name name
          (record {
            upstream = some up.upstream;
            upstream_pwd = up.password;
            cancel_group = g.next;
          })
          (add_routes counts ups g').0,
    )

first-sole : (l : List ResolvedUpstream) → (if length l == 1 then first l else none) ≡ sole l
first-sole [] = refl
first-sole (up ∷ []) = refl
first-sole (up ∷ up' ∷ ups) = ground arith

-- A non-empty name leads to the one upstream that carries it, and nowhere if there are none or
-- several; the empty name leads nowhere.
pub route_iff_unambiguous :
    (name : GoString) (ups : Map GoString ResolvedUpstream) (g : Groups)
    → target (find str_discrete name (build_display_name_routes ups g).0)
      ≡ (if str_eq name [] then none else sole (named name ups))
unfolding build_display_name_routes
route_iff_unambiguous name ups g =
    rw (find-add_routes (count_names ups) name ups g)
      (elim (str_discrete name [])
        as (λ x.
          (if (if (elim x [ yes _ ↦ true | no _ ↦ false ])
              then false
              else count_of name (count_names ups) == 1)
            then first (named name ups)
            else none)
          ≡ (if (elim x [ yes _ ↦ true | no _ ↦ false ]) then none else sole (named name ups))) [
            | yes p ↦ refl
            | no p ↦ rw (count_names-length name ups p) (first-sole (named name ups))
          ])
