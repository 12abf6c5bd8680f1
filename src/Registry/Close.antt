-- ===== src/Registry/Close.antt =====
-- The Close methods against the connections: which contexts each of them cancels.
use pio.Base.{
  ℕ, ◌≡◌, ◌↔◌, Bool, true, false, none, some, [], ◌∷◌, GoString, arith, among, str_eq, ℕ_discrete,
  ite, if◌then◌else◌, sym, ◌∙◌, ap, subst, some_eq, Option-cases, Bool-cases, inl, inr,
}
use pio.Base.Map.{Map, find, UniqueKeys}
use pio.Registry.{
  ActiveConnection, ConnectionRegistry, Ids, key_of, ids_of, cancels_of, cancels_where,
  close_by_user_upstream, close_by_upstream, close_by_username,
}
use pio.Registry.Key.{has_bar, key_of-injective}
use pio.Registry.Lookup.{present}
use pio.Registry.WellFormed.{WellFormed, keyed}

-- A connection of the registry that passes a test and has this context.
abbrev pub Held : (ActiveConnection → Type 0) → Map ℕ ActiveConnection → ℕ → Type 0
Held P conns f =
    (id : ℕ) × (c : ActiveConnection) × (find ℕ_discrete id conns ≡ some c)
    × P c
    × (c.cancel_func ≡ f)

-- A later connection keeps its place behind one of another id.
behind :
    (test : ActiveConnection → Bool) (id : ℕ) (c : ActiveConnection)
    (conns : Map ℕ ActiveConnection) (f : ℕ)
    → UniqueKeys ℕ_discrete ((id, c) ∷ conns)
    → Held (λ d. test d ≡ true) conns f
    → Held (λ d. test d ≡ true) ((id, c) ∷ conns) f
unfolding find
behind test id c conns f u (j, d, e, t, q) = (j, d, ground (arith, u.0), t, q)

held_of_cancel :
    (test : ActiveConnection → Bool) (conns : Map ℕ ActiveConnection) (f : ℕ)
    → UniqueKeys ℕ_discrete conns
    → among f (cancels_where test conns) ≡ true
    → Held (λ c. test c ≡ true) conns f
unfolding cancels_where find
held_of_cancel test [] f u h = absurd (ground arith)
held_of_cancel test ((id, c) ∷ conns) f u h = elim (Bool-cases (test c)) [
  | inl t ↦ elim (ℕ_discrete c.cancel_func f) [
    | yes p ↦ (id, c, ground arith, t, p)
    | no p ↦ behind test id c conns f u (held_of_cancel test conns f u.1 (ground arith))
  ]
  | inr t ↦ behind test id c conns f u (held_of_cancel test conns f u.1 (ground arith))
]

cancel_of_held :
    (test : ActiveConnection → Bool) (conns : Map ℕ ActiveConnection) (f : ℕ)
    → Held (λ c. test c ≡ true) conns f
    → among f (cancels_where test conns) ≡ true
unfolding cancels_where find
cancel_of_held test [] f (id, c, e, t, q) = absurd (ground arith)
cancel_of_held test ((j, d) ∷ conns) f (id, c, e, t, q) =
    (elim (ℕ_discrete j id)
        as (λ x.
          ite x (some d) (find ℕ_discrete id conns) ≡ some c
          → among f (
              if test d then d.cancel_func ∷ cancels_where test conns else cancels_where test conns)
            ≡ true) [
              | yes p ↦ λ e'. let same = some_eq e' in ground (arith, same)
              | no p ↦ λ e'. ground (arith, cancel_of_held test conns f (id, c, e', t, q))
            ])
      e

module _ (r : ConnectionRegistry) (w : WellFormed r) where
  -- CloseByUpstream cancels exactly the connections through this upstream, whoever opened them.
  pub close_by_upstream_iff :
      (upstream_id : GoString) (f : ℕ)
      → (among f (close_by_upstream upstream_id r) ≡ true)
        ↔ Held (λ c. str_eq c.upstream_id upstream_id ≡ true) r.conns f
  unfolding close_by_upstream
  close_by_upstream_iff upstream_id f =
      let test : ActiveConnection → Bool = λ c. str_eq c.upstream_id upstream_id in
      (held_of_cancel test r.conns f w.unique, cancel_of_held test r.conns f)

  -- CloseByUsername cancels exactly the connections of this user.
  pub close_by_username_iff :
      (username : GoString) (f : ℕ)
      → (among f (close_by_username username r) ≡ true)
        ↔ Held (λ c. str_eq c.username username ≡ true) r.conns f
  unfolding close_by_username
  close_by_username_iff username f =
      let test : ActiveConnection → Bool = λ c. str_eq c.username username in
      (held_of_cancel test r.conns f w.unique, cancel_of_held test r.conns f)

-- The loop over a set of ids.
cancel_of_id :
    (ids : Ids) (conns : Map ℕ ActiveConnection) (f id : ℕ) (c : ActiveConnection)
    → present (find ℕ_discrete id ids) ≡ true
    → find ℕ_discrete id conns ≡ some c
    → c.cancel_func ≡ f
    → among f (cancels_of ids conns) ≡ true
unfolding cancels_of find
cancel_of_id [] conns f id c h e q = absurd (ground arith)
cancel_of_id ((j, _) ∷ ids) conns f id c h e q =
    (elim (ℕ_discrete j id)
        as (λ x.
          present (ite x (some tt) (find ℕ_discrete id ids)) ≡ true
          → among f (elim (find ℕ_discrete j conns) [
            | none ↦ cancels_of ids conns
            | some d ↦ d.cancel_func ∷ cancels_of ids conns
          ])
            ≡ true) [
              | yes p ↦ λ h'.
                  subst
                    (λ n.
                      among f (elim (find ℕ_discrete n conns) [
                        | none ↦ cancels_of ids conns
                        | some d ↦ d.cancel_func ∷ cancels_of ids conns
                      ])
                      ≡ true)
                    (sym p) (rw (e) (ground arith))
              | no p ↦ λ h'. ground (arith, cancel_of_id ids conns f id c h' e q)
            ])
      h

id_of_cancel :
    (ids : Ids) (conns : Map ℕ ActiveConnection) (f : ℕ)
    → among f (cancels_of ids conns) ≡ true
    → (id : ℕ) × (c : ActiveConnection) × (present (find ℕ_discrete id ids) ≡ true)
      × (find ℕ_discrete id conns ≡ some c)
      × (c.cancel_func ≡ f)
unfolding cancels_of find
id_of_cancel [] conns f h = absurd (ground arith)
id_of_cancel ((j, _) ∷ ids) conns f h = elim (Option-cases (find ℕ_discrete j conns)) [
  | inl e ↦ later (id_of_cancel ids conns f (ground arith))
  | inr (c, e) ↦ elim (ℕ_discrete c.cancel_func f) [
    | yes p ↦ (j, c, ground arith, e, p)
    | no p ↦ later (id_of_cancel ids conns f (ground arith))
  ]
]
  where
    later :
        ((id : ℕ) × (c : ActiveConnection) × (present (find ℕ_discrete id ids) ≡ true)
          × (find ℕ_discrete id conns ≡ some c)
          × (c.cancel_func ≡ f))
        → (id : ℕ) × (c : ActiveConnection) × (present
              (ite (ℕ_discrete j id) (some tt) (find ℕ_discrete id ids))
            ≡ true)
          × (find ℕ_discrete id conns ≡ some c)
          × (c.cancel_func ≡ f)
    later (id, c, h', e, q) = (id, c, ground arith, e, q)

-- No upstream id of the registry contains a bar.
abbrev pub BarFree : ConnectionRegistry → Type 0
BarFree r =
    (id : ℕ) (c : ActiveConnection)
    → find ℕ_discrete id r.conns ≡ some c
    → has_bar c.upstream_id ≡ false

module _ (r : ConnectionRegistry) (w : WellFormed r) (free : BarFree r) where
  -- CloseByUserUpstream cancels exactly the connections of this user through this upstream.
  pub close_by_user_upstream_iff :
      (username upstream_id : GoString) (f : ℕ)
      → has_bar upstream_id ≡ false
      → (among f (close_by_user_upstream username upstream_id r) ≡ true)
        ↔ Held (λ c. (c.username ≡ username) × (c.upstream_id ≡ upstream_id)) r.conns f
  unfolding close_by_user_upstream
  close_by_user_upstream_iff username upstream_id f no_bar = (
    λ h.
        let (id, c, p, e, q) =
          id_of_cancel (ids_of (key_of username upstream_id) r.by_key) r.conns f h in
        let key : keyed (key_of username upstream_id) (some c) ≡ true =
          ap (keyed (key_of username upstream_id)) (sym e)
          ∙ sym (w.indexed (key_of username upstream_id) id)
          ∙ p in
        (
          id,
          c,
          e,
          key_of-injective c.username username c.upstream_id upstream_id (free id c e) no_bar
              (ground arith),
          q,
        ),
    λ (id, c, e, (u, i), q).
        cancel_of_id (ids_of (key_of username upstream_id) r.by_key) r.conns f id c
          (w.indexed (key_of username upstream_id) id ∙ rw (e, u, i) (ground arith)) e q,
  )
