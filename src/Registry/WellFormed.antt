-- ===== src/Registry/WellFormed.antt =====
-- The two indexes agree: an id stands under a key exactly when its connection has that key.
use pio.Base.{
  ℕ, ◌+◌, ◌<◌, ◌≤◌, ◌^◌, ◌≡◌, ◌≢◌, refl, Bool, false, Option, none, some, [], ◌∷◌, GoString, arith,
  str_discrete, str_eq, ℕ_discrete, ite, sym, ◌∙◌, ap, subst, some_eq, Option-cases, inl, inr,
}
use pio.Base.Int.{u64}
use pio.Base.Map.{
  Map, find, put, remove, find-put, find-remove, UniqueKeys, put-UniqueKeys, remove-UniqueKeys,
}
use pio.Registry.{
  ActiveConnection, ConnectionRegistry, new, Ids, conn_key, ids_of, register, drop_id, deregister,
}
use pio.Registry.Lookup.{under, find-register, under-register, under-drop_id}

abbrev pub keyed : GoString → Option ActiveConnection → Bool
keyed k none = false
keyed k (some c) = str_eq (conn_key c) k

pub record WellFormed (r : ConnectionRegistry) : Type 0 where
  pub indexed : (k : GoString) (j : ℕ) → under r.by_key k j ≡ keyed k (find ℕ_discrete j r.conns)
  pub named :
      (j : ℕ) (c : ActiveConnection)
      → find ℕ_discrete j r.conns ≡ some c
      → (c.id ≡ j) × (j ≤ r.next_id)
  pub unique : UniqueKeys ℕ_discrete r.conns
  pub no_empty : (k : GoString) → find str_discrete k r.by_key ≢ some []

pub new-WellFormed : WellFormed new
new-WellFormed = record {
  indexed = λ k j. unfold find in refl;
  named = λ j c e. absurd (unfold find in ground arith);
  unique = tt;
  no_empty = λ k e. unfold find in cc;
}

-- An id that was never given.
pub fresh_id :
    (r : ConnectionRegistry)
    → WellFormed r
    → (j : ℕ) → r.next_id < j
    → find ℕ_discrete j r.conns ≡ none
fresh_id r w j h = elim (Option-cases (find ℕ_discrete j r.conns)) [
  | inl e ↦ e
  | inr (c, e) ↦ absurd (omega (arith, w.named j c e))
]

abbrev NoEmpty : Map GoString Ids → Type 0
NoEmpty m = (k : GoString) → find str_discrete k m ≢ some []

put-NoEmpty :
    (key : GoString) (id : ℕ) (set : Ids) (m : Map GoString Ids)
    → NoEmpty m
    → NoEmpty (put str_discrete key (put ℕ_discrete id tt set) m)
put-NoEmpty key id set m h k e =
    (elim (str_discrete key k)
        as (λ x. ite x (some (put ℕ_discrete id tt set)) (find str_discrete k m) ≡ some [] → ⊥) [
          | yes p ↦ λ q. unfold put in ground (arith, some_eq q)
          | no p ↦ h k
        ])
      (sym (find-put str_discrete key k (put ℕ_discrete id tt set) m) ∙ e)

drop_id-NoEmpty :
    (id : ℕ) (key : GoString) (m : Map GoString Ids) → NoEmpty m → NoEmpty (drop_id id key m)
unfolding drop_id
drop_id-NoEmpty id key m h =
    elim (find str_discrete key m)
      as (λ x. NoEmpty (elim x [
        | none ↦ m
        | some set ↦ elim (remove ℕ_discrete id set) [
          | [] ↦ remove str_discrete key m
          | e ∷ es ↦ put str_discrete key (e ∷ es) m
        ]
      ])) [
        | none ↦ h
        | some set ↦
            elim (remove ℕ_discrete id set)
              as (λ x. NoEmpty (elim x [
                | [] ↦ remove str_discrete key m
                | e ∷ es ↦ put str_discrete key (e ∷ es) m
              ])) [
                | [] ↦ λ k e. ground (arith, find-remove str_discrete key k m, h k)
                | x ∷ xs ↦ λ k e. ground (arith, find-put str_discrete key k (x ∷ xs) m, h k)
              ]
      ]

module _ (c : ActiveConnection) (r : ConnectionRegistry) (w : WellFormed r)
    (room : r.next_id + 1 < 2 ^ 64) where
  given : u64 (r.next_id + 1) ≡ r.next_id + 1
  given = omega arith

  -- Until the counter wraps around, Register keeps the indexes in step.
  pub register-WellFormed : WellFormed (register c r).1
  register-WellFormed = record {
    indexed = λ k j. ground (
      arith,
      under-register c r k j,
      find-register c r j,
      w.indexed k j,
      given,
      fresh_id r w (r.next_id + 1) (omega arith),
    );
    named = λ j d e. unfold register in ground (arith, find-register c r j, given, w.named j d);
    unique = unfold register in put-UniqueKeys ℕ_discrete _ _ r.conns w.unique;
    no_empty = λ k e.
        put-NoEmpty (conn_key c) (u64 (r.next_id + 1)) (ids_of (conn_key c) r.by_key) r.by_key
          w.no_empty k (unfold register in e);
  }

module _ (id : ℕ) (r : ConnectionRegistry) (w : WellFormed r) where
  pub find-deregister :
      (j : ℕ)
      → find ℕ_discrete j (deregister id r).conns
        ≡ ite (ℕ_discrete id j) none (find ℕ_discrete j r.conns)
  unfolding deregister
  find-deregister j = ground (arith, find-remove ℕ_discrete id j r.conns)

  deregister_unknown : find ℕ_discrete id r.conns ≡ none → deregister id r ≡ r
  unfolding deregister
  deregister_unknown e = ground arith

  deregister_known :
      (c : ActiveConnection)
      → find ℕ_discrete id r.conns ≡ some c
      → deregister id r ≡ record r {
        conns = remove ℕ_discrete id r.conns;
        by_key = drop_id id (conn_key c) r.by_key;
      }
  unfolding deregister
  deregister_known c e = ground arith

  -- Deregister keeps the indexes in step, for an id that is known and for one that is not.
  pub deregister-WellFormed : WellFormed (deregister id r)
  deregister-WellFormed = elim (Option-cases (find ℕ_discrete id r.conns)) [
    | inl e ↦ subst WellFormed (sym (deregister_unknown e)) w
    | inr (c, e) ↦ subst WellFormed (sym (deregister_known c e)) record {
      indexed = λ k j. ground (
        arith,
        under-drop_id id (conn_key c) r.by_key k j,
        find-remove ℕ_discrete id j r.conns,
        w.indexed k j,
      );
      named = λ j d q. ground (arith, find-remove ℕ_discrete id j r.conns, w.named j d);
      unique = remove-UniqueKeys ℕ_discrete id r.conns w.unique;
      no_empty = drop_id-NoEmpty id (conn_key c) r.by_key w.no_empty;
    }
  ]

-- Registering a connection and deregistering it again leaves both indexes as they were.
pub deregister-register :
    (c : ActiveConnection) (r : ConnectionRegistry)
    → WellFormed r
    → r.next_id + 1 < 2 ^ 64
    → let r' = deregister (register c r).0 (register c r).1 in
      ((j : ℕ) → find ℕ_discrete j r'.conns ≡ find ℕ_discrete j r.conns)
      × ((k : GoString) (j : ℕ) → under r'.by_key k j ≡ under r.by_key k j)
deregister-register c r w room = (conns, keys)
  where
    given_id : (register c r).0 ≡ r.next_id + 1
    given_id = unfold register in omega arith

    conns :
        (j : ℕ)
        → find ℕ_discrete j (deregister (register c r).0 (register c r).1).conns
          ≡ find ℕ_discrete j r.conns
    conns j = ground (
      arith,
      find-deregister (register c r).0 (register c r).1 (register-WellFormed c r w room) j,
      find-register c r j,
      given c r w room,
      given_id,
      fresh_id r w (r.next_id + 1) (omega arith),
    )

    keys :
        (k : GoString) (j : ℕ)
        → under (deregister (register c r).0 (register c r).1).by_key k j ≡ under r.by_key k j
    keys k j =
        let good =
          deregister-WellFormed (register c r).0 (register c r).1
            (register-WellFormed c r w room) in
        good.indexed k j ∙ ap (keyed k) (conns j) ∙ sym (w.indexed k j)
