-- ===== src/Wire/Base64.antt =====
-- base64.StdEncoding.EncodeToString: three bytes are four letters, the rest is padded.
use pio.Base.{ℕ, ◌+◌, ◌*◌, ◌/◌, ◌%◌, ◌-◌, List, [], ◌∷◌, GoString, ltb, ◌==◌, if◌then◌else◌}

unfoldable pub letter : ℕ → ℕ
letter n =
    if ltb n 26
    then 65 + n
    else (if ltb n 52
        then 97 + (n - 26)
        else (if ltb n 62 then 48 + (n - 52) else (if n == 62 then 43 else 47)))

-- The byte of "=".
abbrev pad : ℕ
pad = 61

unfoldable pub encode_base64 : List ℕ → GoString
unfolding letter
encode_base64 [] = []
encode_base64 (a ∷ []) = letter (a / 4) ∷ letter (a % 4 * 16) ∷ pad ∷ pad ∷ []
encode_base64 (a ∷ b ∷ []) =
    letter (a / 4) ∷ letter (a % 4 * 16 + b / 16) ∷ letter (b % 16 * 4) ∷ pad ∷ []
encode_base64 (a ∷ b ∷ c ∷ bs) =
    letter (a / 4)
    ∷ letter (a % 4 * 16 + b / 16)
    ∷ letter (b % 16 * 4 + c / 64)
    ∷ letter (c % 64)
    ∷ encode_base64 bs
