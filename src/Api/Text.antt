-- ===== src/Api/Text.antt =====
-- What the subscription handlers use of strings and strconv.
use pio.Base.{
  ℕ, ◌+◌, Bool, [], ◌∷◌, ◌++◌, GoString, codes, str_eq, if◌then◌else◌, leb, ◌&&◌, none, some,
}
use pio.Base.Int.{ℤ, pos, negsuc}
use pio.Wire.Text.{itoa, split_host_port}
use pio.Repo.Manual.{is_blank, space1, space2, space3}

-- strings.TrimLeftFunc(s, unicode.IsSpace)
unfoldable pub trim_left : GoString → GoString
trim_left [] = []
trim_left (a ∷ []) = if space1 a then [] else a ∷ []
trim_left (a ∷ b ∷ []) =
    let rest = trim_left (b ∷ []) in
    if space1 a then rest else if space2 a b then [] else a ∷ b ∷ []
trim_left (a ∷ b ∷ c ∷ s) =
    let one = trim_left (b ∷ c ∷ s) in
    let two = trim_left (c ∷ s) in
    let three = trim_left s in
    if space1 a
    then one
    else if space2 a b
    then two
    else if space3 a b c
    then three
    else a ∷ b ∷ c ∷ s

-- strings.TrimRightFunc(s, unicode.IsSpace): what is left of the white space at the end.
unfoldable pub trim_right : GoString → GoString
trim_right [] = []
trim_right (a ∷ s) = let rest = trim_right s in if is_blank (a ∷ s) then [] else a ∷ rest

abbrev pub trim_space : GoString → GoString
trim_space s = trim_right (trim_left s)

abbrev lower_byte : ℕ → ℕ
lower_byte b = if leb 65 b && leb b 90 then b + 32 else b

unfoldable pub lower : GoString → GoString
lower [] = []
lower (b ∷ bs) = lower_byte b ∷ lower bs

-- strings.EqualFold(s, "http"): no letter beyond ASCII folds to one of "http".
abbrev pub is_http : GoString → Bool
is_http s = str_eq (lower s) (codes "http")

-- strconv.Itoa
abbrev pub itoa_int : ℤ → GoString
itoa_int (pos n) = itoa n
itoa_int (negsuc n) = codes "-" ++ itoa (n + 1)

unfoldable pub hostname_only : GoString → GoString
hostname_only hostport = elim (split_host_port hostport) [
  | some (host, port) ↦ host
  | none ↦ hostport
]
