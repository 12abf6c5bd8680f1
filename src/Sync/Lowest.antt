-- ===== src/Sync/Lowest.antt =====
-- The allocator always answers, and with the lowest number that is free.
use pio.Base.{
  ℕ, zero, suc, ◌+◌, ◌≤◌, ◌<◌, ◌≡◌, refl, sym, Bool, true, false, none, some, [], ◌∷◌, GoString,
  str_discrete, ℕ_discrete, arith, length, ite, Bool-cases, inl, inr, subst, str_eq, ◌&&◌, ◌==◌,
  ◌||◌,
}
use pio.Base.Map.{find, put, remove, find-put, find-remove}
use pio.Sync.{SeqAllocator, Seqs, cc_set, taken, lowest_free, reserve, next}

-- Taking out a number that is in the set makes the set smaller.
length-remove : (n : ℕ) (m : Seqs) → length (remove ℕ_discrete n m) ≤ length m
unfolding remove
length-remove n [] = omega arith
length-remove n ((k, x) ∷ m) = ground (arith, length-remove n m)

length-remove-taken :
    (n : ℕ) (m : Seqs) → taken m n ≡ true → length (remove ℕ_discrete n m) < length m
unfolding remove find
length-remove-taken n [] h = absurd (ground arith)
length-remove-taken n ((k, x) ∷ m) h =
    (elim (ℕ_discrete k n)
        as (λ d.
          elim (ite d (some x) (find ℕ_discrete n m)) as (λ _. Bool) [
            | none ↦ false
            | some _ ↦ true
          ]
            ≡ true
          → length (ite d (remove ℕ_discrete n m) ((k, x) ∷ remove ℕ_discrete n m))
            < suc (length m)) [
              | yes p ↦ λ _. omega (arith, length-remove n m)
              | no p ↦ λ h'. omega (arith, length-remove-taken n m h')
            ])
      h

-- Above a number, the search does not see it.
lowest_free-remove :
    (fuel n k : ℕ) (m : Seqs)
    → k < n
    → lowest_free fuel n m ≡ lowest_free fuel n (remove ℕ_discrete k m)
unfolding lowest_free
lowest_free-remove zero n k m h = refl
lowest_free-remove (suc fuel) n k m h =
    ground (arith, lowest_free-remove fuel (n + 1) k m (omega arith), find-remove ℕ_discrete k n m)

enough_fuel : (fuel n : ℕ) (m : Seqs) → length m < fuel → (k : ℕ) × (lowest_free fuel n m ≡ some k)
unfolding lowest_free
enough_fuel zero n m h = absurd (omega arith)
enough_fuel (suc fuel) n m h = elim (Bool-cases (taken m n)) [
  | inr f ↦ (n, ground arith)
  | inl t ↦
      let (k, e) =
        enough_fuel fuel (n + 1) (remove ℕ_discrete n m)
          (omega (arith, length-remove-taken n m t)) in
      (k, ground (arith, lowest_free-remove fuel (n + 1) n m (omega arith)))
]

found_free :
    (fuel n k : ℕ) (m : Seqs)
    → lowest_free fuel n m ≡ some k
    → (n ≤ k) × (taken m k ≡ false) × ((j : ℕ) → n ≤ j → j < k → taken m j ≡ true)
unfolding lowest_free
found_free zero n k m h = absurd (ground arith)
found_free (suc fuel) n k m h = elim (Bool-cases (taken m n)) [
  | inr f ↦
      let same : n ≡ k = ground arith in
      (omega arith, subst (λ i. taken m i ≡ false) same f, λ j a b. absurd (omega arith))
  | inl t ↦
      let (le, free, below) = found_free fuel (n + 1) k m (ground arith) in
      (
        omega arith,
        free,
        λ j a b. elim (ℕ_discrete j n) [
          | yes p ↦ subst (λ i. taken m i ≡ true) (sym p) t
          | no p ↦ below j (omega arith) b
        ],
      )
]

-- What is taken once a number is reserved.
taken-reserve :
    (cc : GoString) (n : ℕ) (a : SeqAllocator) (c : GoString) (j : ℕ)
    → taken (cc_set (reserve cc n a) c) j ≡ (str_eq cc c && (n == j)) || taken (cc_set a c) j
unfolding reserve
taken-reserve cc n a c j = ground (
  arith,
  find-put str_discrete cc c (put ℕ_discrete n tt (cc_set a cc)) a.used,
  find-put ℕ_discrete n j tt (cc_set a cc),
)

-- The lowest positive number that is free for the country, which is taken from then on, while no
-- other number of any country changes.
abbrev pub AllocatesLowest : GoString → SeqAllocator → Type 0
AllocatesLowest cc a =
    (n : ℕ) × (a' : SeqAllocator) × (next cc a ≡ some (n, a'))
    × (1 ≤ n)
    × (taken (cc_set a cc) n ≡ false)
    × ((j : ℕ) → 1 ≤ j → j < n → taken (cc_set a cc) j ≡ true)
    × ((c : GoString) (j : ℕ)
        → taken (cc_set a' c) j ≡ (str_eq cc c && (n == j)) || taken (cc_set a c) j)

-- `next` always returns, with the lowest positive number that is free for the country, and reserves
-- that number and no other.
pub next-AllocatesLowest : (cc : GoString) (a : SeqAllocator) → AllocatesLowest cc a
unfolding next
next-AllocatesLowest cc a =
    let (n, e) = enough_fuel (suc (length (cc_set a cc))) 1 (cc_set a cc) (omega arith) in
    let (le, free, below) = found_free (suc (length (cc_set a cc))) 1 n (cc_set a cc) e in
    (n, reserve cc n a, ground arith, le, free, below, taken-reserve cc n a)
