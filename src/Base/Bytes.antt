-- ===== src/Base/Bytes.antt =====
-- A Go string is a sequence of bytes. `codes` reads an ASCII literal of the source.
use Prim.Native.Nat.{ℕ}
use Prim.Native.Char.{code}
use Prim.Native.String.{String}
use mathlib.Core.Bool.{Bool, true, false}
use mathlib.Core.Path.{◌≡◌, refl}
use mathlib.Core.List.{List, [], ◌∷◌}
use native.Mathlib.Decide.{ℕ_discrete}
use native.Mathlib.Omega.{arith}

abbrev pub GoString : Type 0
GoString = List ℕ

abbrev pub codes : String → GoString
codes String.[] = []
codes (String.◌∷◌ c s) = code c ∷ codes s

pub tail_eq : {x y : ℕ} {xs ys : GoString} → x ∷ xs ≡ y ∷ ys → xs ≡ ys
tail_eq e = ground arith

pub head_eq : {x y : ℕ} {xs ys : GoString} → x ∷ xs ≡ y ∷ ys → x ≡ y
head_eq e = ground arith

unfoldable pub str_discrete : Discrete GoString
unfolding ℕ_discrete
str_discrete [] [] = yes refl
str_discrete [] (y ∷ ys) = no (λ e. cc)
str_discrete (x ∷ xs) [] = no (λ e. cc)
str_discrete (x ∷ xs) (y ∷ ys) = elim (ℕ_discrete x y) [
  | yes p ↦ elim (str_discrete xs ys) [ yes q ↦ yes (cc) | no q ↦ no (λ e. q (tail_eq e)) ]
  | no p ↦ no (λ e. p (head_eq e))
]

-- `s == t` on Go strings.
abbrev pub str_eq : GoString → GoString → Bool
str_eq s t = elim (str_discrete s t) [ yes _ ↦ true | no _ ↦ false ]

eq_test : str_eq (codes "abc") (codes "abc") ≡ true
unfolding str_discrete
eq_test = refl

ne_test : str_eq (codes "abc") (codes "ab") ≡ false
unfolding str_discrete
ne_test = refl
