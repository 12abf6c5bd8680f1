-- ===== src/Repo/Order.antt =====
-- ORDER BY of the queries of internal/repo: a stable sort, and the byte order of text.
use pio.Base.{Bool, true, false, List, [], ◌∷◌, GoString, if◌then◌else◌, ◌==◌, ltb, str_eq}

module _ {A : Type 0} (le : A → A → Bool) where
  unfoldable pub insert_sorted : A → List A → List A
  insert_sorted x [] = x ∷ []
  insert_sorted x (y ∷ ys) = if le x y then x ∷ y ∷ ys else y ∷ insert_sorted x ys

  unfoldable pub sort : List A → List A
  unfolding insert_sorted
  sort [] = []
  sort (x ∷ xs) = insert_sorted x (sort xs)

unfoldable pub str_le : GoString → GoString → Bool
str_le [] t = true
str_le (a ∷ s) [] = false
str_le (a ∷ s) (b ∷ t) = if a == b then str_le s t else ltb a b

-- The first columns decide, unless they are equal.
abbrev pub or_next : GoString → GoString → Bool → Bool
or_next s t next = if str_eq s t then next else str_le s t
