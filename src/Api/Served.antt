-- ===== src/Api/Served.antt =====
-- Who gets the subscription list, and what is in it.
use pio.Base.{
  ℕ, ◌≡◌, refl, Bool, true, false, Option, none, some, List, [], ◌∷◌, GoString, str_eq,
  str_discrete, arith, inl, inr, ◌||◌, map,
}
use pio.Base.Map.{Map, find}
use pio.Store.{ok, Tables, load_universal_proxy_password, Result-cases}
use pio.DenyList.{DenyList, is_denied}
use pio.Routing.State.{RoutingState, DisplayNameRoute}
use pio.Repo.Config.{load_settings}
use pio.Repo.Order.{sort, insert_sorted, str_le}
use pio.Api.Subscription.{
  Request, listing, route_names, names_of, scheme_of, authority_of, subscription_handler,
}

abbrev listed_name : GoString → List GoString → Bool
listed_name n [] = false
listed_name n (m ∷ names) = str_eq m n || listed_name n names

listed-insert :
    (n m : GoString) (names : List GoString)
    → listed_name n (insert_sorted str_le m names) ≡ str_eq m n || listed_name n names
unfolding insert_sorted
listed-insert n m [] = refl
listed-insert n m (k ∷ names) = ground (arith, listed-insert n m names)

listed-sort :
    (n : GoString) (names : List GoString) → listed_name n (sort str_le names) ≡ listed_name n names
unfolding sort
listed-sort n [] = refl
listed-sort n (m ∷ names) =
    ground (arith, listed-insert n m (sort str_le names), listed-sort n names)

listed-route_names :
    (n : GoString) (routes : Map GoString DisplayNameRoute)
    → listed_name n (route_names routes)
      ≡ elim (find str_discrete n routes) [ none ↦ false | some _ ↦ true ]
unfolding route_names find
listed-route_names n [] = refl
listed-route_names n ((name, route) ∷ routes) = ground (arith, listed-route_names n routes)

-- A name is routed in the snapshot, if there is one.
abbrev pub routed : GoString → Option RoutingState → Bool
routed n none = false
routed n (some snap) = elim (find str_discrete n snap.by_display_name) [
  | none ↦ false
  | some _ ↦ true
]

listed-names_of :
    (n : GoString) (snap : Option RoutingState)
    → listed_name n (sort str_le (names_of snap)) ≡ routed n snap
unfolding sort
listed-names_of n none = refl
listed-names_of n (some snap) = ground (
  arith,
  listed-sort n (route_names snap.by_display_name),
  listed-route_names n snap.by_display_name,
)

module _ (split_host : GoString → Option GoString)
    (line : GoString → GoString → GoString → GoString → GoString)
    (decrypt : GoString → GoString → Option GoString) (settings_fail password_fails : Bool)
    (asked now : ℕ) (t : Tables) (r : Request) (snap : Option RoutingState) where
  abbrev pub turned_away : Option DenyList → Bool
  turned_away none = false
  turned_away (some d) = (is_denied split_host asked d r.remote_addr).0

  -- The settings can be read, the list is enabled, a universal password is set, the client is not
  -- banned and sends that password.
  abbrev pub Entitled : Option DenyList → GoString → Type 0
  Entitled deny universal =
      (settings_fail ≡ false)
      × (t.settings.subscription_enabled ≡ true)
      × (load_universal_proxy_password decrypt password_fails t ≡ ok universal)
      × (str_eq universal [] ≡ false)
      × (turned_away deny ≡ false)
      × (str_eq r.password universal ≡ true)

  -- The lines of the sorted names, which are the names that are routed.
  abbrev pub Lines : GoString → List GoString → Type 0
  Lines universal lines =
      (names : List GoString) × (lines
        ≡ map (λ name. line (scheme_of r) name universal (authority_of t.settings r)) names)
      × ((n : GoString) → listed_name n names ≡ routed n snap)

  listing-Entitled :
      (deny : Option DenyList) (lines : List GoString)
      → (subscription_handler split_host line decrypt settings_fail password_fails asked now t r
          snap deny).0
        ≡ listing lines
      → (universal : GoString) × Entitled deny universal × Lines universal lines
  unfolding subscription_handler load_settings
  listing-Entitled none lines h =
      elim (Result-cases (load_universal_proxy_password decrypt password_fails t)) [
        | inr (e, bad) ↦ absurd (ground arith)
        | inl (universal, loaded) ↦ (
          universal,
          (ground arith, ground arith, loaded, ground arith, refl, ground arith),
          (sort str_le (names_of snap), ground arith, λ n. listed-names_of n snap),
        )
      ]
  listing-Entitled (some d) lines h =
      elim (Result-cases (load_universal_proxy_password decrypt password_fails t)) [
        | inr (e, bad) ↦ absurd (ground arith)
        | inl (universal, loaded) ↦ (
          universal,
          (ground arith, ground arith, loaded, ground arith, ground arith, ground arith),
          (sort str_le (names_of snap), ground arith, λ n. listed-names_of n snap),
        )
      ]

  Entitled-listing :
      (deny : Option DenyList) (universal : GoString)
      → Entitled deny universal
      → (lines : List GoString) × ((subscription_handler split_host line decrypt settings_fail
            password_fails asked now t r snap deny).0
          ≡ listing lines)
  unfolding subscription_handler load_settings
  Entitled-listing none universal e = (
    map (λ name. line (scheme_of r) name universal (authority_of t.settings r))
        (sort str_le (names_of snap)),
    ground (arith, e.2),
  )
  Entitled-listing (some d) universal e = (
    map (λ name. line (scheme_of r) name universal (authority_of t.settings r))
        (sort str_le (names_of snap)),
    ground (arith, e.2),
  )

  -- The handler answers with lines for the entitled and for no other client.
  abbrev pub Serves : Option DenyList → Type 0
  Serves deny =
      ((lines : List GoString)
        → (subscription_handler split_host line decrypt settings_fail password_fails asked now t r
            snap deny).0
          ≡ listing lines
        → (universal : GoString) × Entitled deny universal × Lines universal lines)
      × ((universal : GoString)
          → Entitled deny universal
          → (lines : List GoString) × ((subscription_handler split_host line decrypt settings_fail
                password_fails asked now t r snap deny).0
              ≡ listing lines))

  -- The subscription handler lists proxies exactly for a client that is entitled to the list: the
  -- settings can be read, the list is enabled, a universal password is set, the client is not banned
  -- and sends that password. The names on the lines are then those that the snapshot routes.
  pub subscription-Serves : (deny : Option DenyList) → Serves deny
  subscription-Serves deny = (listing-Entitled deny, Entitled-listing deny)
