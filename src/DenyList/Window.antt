-- ===== src/DenyList/Window.antt =====
-- The stamps that RecordFailure keeps are the failures of the last sixty seconds.
use pio.Base.{ℕ, ◌+◌, ◌≤◌, ◌≡◌, refl, List, [], ◌∷◌, ◌++◌, arith, ltb, All, if◌then◌else◌}
use pio.DenyList.{window, trim}

-- The stamps within the window that ends at `now`.
unfoldable pub recent : ℕ → List ℕ → List ℕ
recent now [] = []
recent now (t ∷ ts) = let rest = recent now ts in if ltb (t + window) now then rest else t ∷ rest

abbrev pub IsSorted : List ℕ → Type 0
IsSorted [] = Unit
IsSorted (t ∷ ts) = All (λ u. t ≤ u) ts × IsSorted ts

All-le_trans : {s t : ℕ} (ts : List ℕ) → s ≤ t → All (λ u. t ≤ u) ts → All (λ u. s ≤ u) ts
All-le_trans [] h a = tt
All-le_trans (u ∷ ts) h a = (omega arith, All-le_trans ts h a.1)

pub All-append :
    (s : ℕ) (ts us : List ℕ)
    → All (λ u. s ≤ u) ts
    → All (λ u. s ≤ u) us
    → All (λ u. s ≤ u) (ts ++ us)
All-append s [] us a b = b
All-append s (t ∷ ts) us a b = (a.0, All-append s ts us a.1 b)

All-recent : (s now : ℕ) (ts : List ℕ) → All (λ u. s ≤ u) ts → All (λ u. s ≤ u) (recent now ts)
unfolding recent
All-recent s now [] a = tt
All-recent s now (t ∷ ts) a = ground (arith, All-recent s now ts a.1)

pub recent_le : (s now : ℕ) (ts : List ℕ) → All (λ u. u ≤ s) ts → All (λ u. u ≤ s) (recent now ts)
unfolding recent
recent_le s now [] a = tt
recent_le s now (t ∷ ts) a = ground (arith, recent_le s now ts a.1)

recent_of_All_ge :
    (now t : ℕ) (ts : List ℕ) → now ≤ t + window → All (λ u. t ≤ u) ts → recent now ts ≡ ts
unfolding recent
recent_of_All_ge now t [] h a = refl
recent_of_All_ge now t (u ∷ ts) h a = ground (arith, recent_of_All_ge now t ts)

-- Dropping a prefix of a sorted list leaves the stamps within the window.
pub trim-eq-recent : (now : ℕ) (ts : List ℕ) → IsSorted ts → trim now ts ≡ recent now ts
unfolding trim recent
trim-eq-recent now [] s = refl
trim-eq-recent now (t ∷ ts) s = ground (arith, trim-eq-recent now ts s.1, recent_of_All_ge now t ts)

pub recent-append :
    (now : ℕ) (ts us : List ℕ) → recent now (ts ++ us) ≡ recent now ts ++ recent now us
unfolding recent
recent-append now [] us = refl
recent-append now (t ∷ ts) us = ground (arith, recent-append now ts us)

-- What a later window keeps was kept by the earlier one.
pub recent-recent :
    (now later : ℕ) (ts : List ℕ) → now ≤ later → recent later (recent now ts) ≡ recent later ts
unfolding recent
recent-recent now later [] h = refl
recent-recent now later (t ∷ ts) h = ground (arith, recent-recent now later ts h)

pub recent-IsSorted : (now : ℕ) (ts : List ℕ) → IsSorted ts → IsSorted (recent now ts)
unfolding recent
recent-IsSorted now [] s = tt
recent-IsSorted now (t ∷ ts) s = ground (arith, recent-IsSorted now ts s.1, All-recent t now ts s.0)

pub append-IsSorted :
    (now : ℕ) (ts : List ℕ) → IsSorted ts → All (λ u. u ≤ now) ts → IsSorted (ts ++ now ∷ [])
append-IsSorted now [] s a = (tt, tt)
append-IsSorted now (t ∷ ts) s a =
    (All-append t ts (now ∷ []) s.0 (a.0, tt), append-IsSorted now ts s.1 a.1)
