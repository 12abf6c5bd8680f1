-- ===== src/Registry/Lookup.antt =====
-- What Register and Deregister do to a lookup in either index.
use pio.Base.{
  ℕ, ◌+◌, ◌≡◌, refl, Bool, true, false, Option, none, some, [], ◌∷◌, GoString, arith, str_discrete,
  str_eq, ℕ_discrete, ite, ◌&&◌, ◌==◌, if◌then◌else◌, Option-cases, inl, inr,
}
use pio.Base.Int.{u64}
use pio.Base.Map.{Map, find, put, remove, find-put, find-remove}
use pio.Registry.{ActiveConnection, ConnectionRegistry, Ids, conn_key, ids_of, register, drop_id}

abbrev pub present : Option {0} Unit → Bool
present none = false
present (some _) = true

-- Whether an id stands under a key.
abbrev pub under : Map GoString Ids → GoString → ℕ → Bool
under by_key key id = present (find ℕ_discrete id (ids_of key by_key))

module _ (c : ActiveConnection) (r : ConnectionRegistry) where
  pub find-register :
      (j : ℕ)
      → find ℕ_discrete j (register c r).1.conns
        ≡ ite
            (ℕ_discrete (u64 (r.next_id + 1)) j)
            (some (record c { id = u64 (r.next_id + 1) }))
            (find ℕ_discrete j r.conns)
  unfolding register
  find-register j =
      find-put ℕ_discrete (u64 (r.next_id + 1)) j (record c { id = u64 (r.next_id + 1) }) r.conns

  pub under-register :
      (k : GoString) (j : ℕ)
      → under (register c r).1.by_key k j
        ≡ (if str_eq (conn_key c) k && (u64 (r.next_id + 1) == j) then true else under r.by_key k j)
  unfolding register
  under-register k j = ground (
    arith,
    find-put str_discrete (conn_key c) k
        (put ℕ_discrete (u64 (r.next_id + 1)) tt (ids_of (conn_key c) r.by_key)) r.by_key,
    find-put ℕ_discrete (u64 (r.next_id + 1)) j tt (ids_of (conn_key c) r.by_key),
  )

-- The ids that are left under the key.
left_under :
    (id : ℕ) (set left : Ids) (j : ℕ)
    → remove ℕ_discrete id set ≡ left
    → present (find ℕ_discrete j left)
      ≡ (if id == j then false else present (find ℕ_discrete j set))
left_under id set left j e = rw (← e, find-remove ℕ_discrete id j set) (ground arith)

drop_last :
    (id : ℕ) (key : GoString) (m : Map GoString Ids) (set left : Ids)
    → find str_discrete key m ≡ some set
    → remove ℕ_discrete id set ≡ left
    → (k : GoString)
    → ids_of k
        (elim left [ [] ↦ remove str_discrete key m | e ∷ es ↦ put str_discrete key (e ∷ es) m ])
      ≡ (if str_eq key k then left else ids_of k m)
drop_last id key m set [] e q k = ground (arith, find-remove str_discrete key k m)
drop_last id key m set (x ∷ xs) e q k = ground (arith, find-put str_discrete key k (x ∷ xs) m)

pub under-drop_id :
    (id : ℕ) (key : GoString) (m : Map GoString Ids) (k : GoString) (j : ℕ)
    → under (drop_id id key m) k j ≡ (if str_eq key k && (id == j) then false else under m k j)
unfolding drop_id find
under-drop_id id key m k j = elim (Option-cases (find str_discrete key m)) [
  | inl e ↦ ground arith
  | inr (set, e) ↦ ground (
    arith,
    drop_last id key m set (remove ℕ_discrete id set) e refl k,
    left_under id set (remove ℕ_discrete id set) j refl,
  )
]
