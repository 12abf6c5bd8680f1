-- ===== src/Registry/Key.antt =====
-- The key "username|upstreamID" tells pairs apart as long as no upstream id contains a bar.
use pio.Base.{ℕ, ◌≡◌, refl, Bool, true, false, [], ◌∷◌, GoString, arith, among}
use pio.Registry.{key_of}

-- The byte of "|".
abbrev bar : ℕ
bar = 124

abbrev pub has_bar : GoString → Bool
has_bar s = among bar s

has_bar-key_of : (s t : GoString) → has_bar (key_of s t) ≡ true
has_bar-key_of [] t = refl
has_bar-key_of (x ∷ s) t = ground (arith, has_bar-key_of s t)

pub key_of-injective :
    (u v : GoString) (i j : GoString)
    → has_bar i ≡ false
    → has_bar j ≡ false
    → key_of u i ≡ key_of v j
    → (u ≡ v) × (i ≡ j)
key_of-injective [] [] i j hi hj e = (cc, cc)
key_of-injective [] (y ∷ v) i j hi hj e = absurd (ground (arith, has_bar-key_of v j))
key_of-injective (x ∷ u) [] i j hi hj e = absurd (ground (arith, has_bar-key_of u i))
key_of-injective (x ∷ u) (y ∷ v) i j hi hj e =
    let (p, q) = key_of-injective u v i j hi hj (ground arith) in (ground arith, q)
