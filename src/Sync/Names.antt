-- ===== src/Sync/Names.antt =====
-- internal/sync/displayname.go: the two regular expressions. A display name of either form has one
-- reading: the digits hold no hyphen, and the country is two letters long.
use pio.Base.{
  ℕ, ◌^◌, Bool, true, Option, none, some, [], ◌∷◌, GoString, length, ltb, leb, ◌&&◌, ◌==◌,
  if◌then◌else◌,
}
use pio.Wire.Text.{read_digits}
use pio.Sync.{is_label_byte, display_label_max}

-- The part before the last hyphen, and the part behind it.
unfoldable pub last_hyphen : GoString → Option (GoString × GoString)
last_hyphen [] = none
last_hyphen (b ∷ bs) = elim (last_hyphen bs) [
  | some (before, behind) ↦ some (b ∷ before, behind)
  | none ↦ if b == 45 then some ([], bs) else none
]

abbrev pub is_upper : ℕ → Bool
is_upper c = leb 65 c && leb c 90

-- A text that ends in "-{CC}": what stands before, and the country.
unfoldable pub split_country : GoString → Option (GoString × GoString)
split_country (a ∷ b ∷ c ∷ d ∷ s) = elim (split_country (b ∷ c ∷ d ∷ s)) [
  | none ↦ none
  | some (label, cc) ↦ some (a ∷ label, cc)
]
split_country (a ∷ b ∷ c ∷ []) =
    if a == 45 && is_upper b && is_upper c then some ([], b ∷ c ∷ []) else none
split_country (a ∷ b ∷ []) = none
split_country (a ∷ []) = none
split_country [] = none

unfoldable pub all_label_bytes : GoString → Bool
all_label_bytes [] = true
all_label_bytes (b ∷ bs) = is_label_byte b && all_label_bytes bs

-- [A-Za-z0-9-]{1,12}
abbrev pub is_label : GoString → Bool
is_label s = ltb 0 (length s) && leb (length s) display_label_max && all_label_bytes s

-- \d{2}, and strconv.Atoi, which fails from 2^63 up.
unfoldable pub seq_of : GoString → Option ℕ
seq_of ds = elim (read_digits 0 ds) [
  | none ↦ none
  | some n ↦ if leb 2 (length ds) && ltb n (2 ^ 63) then some n else none
]

-- (countryCode, label, seq) of "{label}-{CC}-{NN}".
unfoldable pub parse_display_name : GoString → Option (GoString × GoString × ℕ)
parse_display_name s = elim (last_hyphen s) [
  | none ↦ none
  | some (rest, ds) ↦ elim (split_country rest) [
    | none ↦ none
    | some (label, cc) ↦ elim (seq_of ds) [
      | none ↦ none
      | some n ↦ if is_label label then some (cc, label, n) else none
    ]
  ]
]

-- The legacy form behind its "{CC}-".
abbrev legacy_rest : GoString → GoString → Option (GoString × GoString × ℕ)
legacy_rest cc s = elim (last_hyphen s) [
  | none ↦ none
  | some (label, ds) ↦ elim (seq_of ds) [
    | none ↦ none
    | some n ↦ if is_label label then some (cc, label, n) else none
  ]
]

-- (countryCode, label, seq) of "{CC}-{label}-{NN}".
unfoldable pub parse_legacy_display_name : GoString → Option (GoString × GoString × ℕ)
parse_legacy_display_name (a ∷ b ∷ c ∷ s) =
    if is_upper a && is_upper b && (c == 45) then legacy_rest (a ∷ b ∷ []) s else none
parse_legacy_display_name (a ∷ b ∷ []) = none
parse_legacy_display_name (a ∷ []) = none
parse_legacy_display_name [] = none
