-- ===== src/Sync/RoundTrip.antt =====
-- A display name that the sync gives reads back as the country, the label and the number it was
-- made of.
use pio.Base.{
  ℕ, zero, suc, ◌+◌, ◌*◌, ◌/◌, ◌%◌, ◌-◌, ◌^◌, ◌≤◌, ◌<◌, ◌≡◌, ◌∙◌, refl, ap, sym, subst, true,
  Option, none, some, [], ◌∷◌, ◌++◌, GoString, codes, length, take, ltb, arith, inl, inr,
  Bool-cases, length-append, lt→ltb,
}
use mathlib.Core.List.{append_assoc}
use pio.Wire.Text.{digits, read_digits}
use pio.Sync.{kept_bytes, label_or_fallback, sanitize_label, two_digits, format_display_name}
use pio.Sync.Names.{
  last_hyphen, is_upper, split_country, all_label_bytes, is_label, seq_of, parse_display_name,
}

-- Digits are read one after the other.
read_digits-append :
    (a b : ℕ) (xs ys : GoString)
    → read_digits a xs ≡ some b
    → read_digits a (xs ++ ys) ≡ read_digits b ys
unfolding read_digits
read_digits-append a b [] ys h = ground arith
read_digits-append a b (x ∷ xs) ys h =
    ground (arith, read_digits-append (a * 10 + (x - 48)) b xs ys)

read_digits-digits : (fuel n : ℕ) → n < fuel → read_digits 0 (digits fuel n) ≡ some n
unfolding digits read_digits
read_digits-digits zero n h = absurd (omega arith)
read_digits-digits (suc fuel) n h = elim (Bool-cases (ltb n 10)) [
  | inl small ↦ ground arith
  | inr big ↦ ground (
    arith,
    read_digits-append 0 (n / 10) (digits fuel (n / 10)) ((48 + n % 10) ∷ [])
        (read_digits-digits fuel (n / 10) (ground arith)),
  )
]

digits-length : (fuel n : ℕ) → n < fuel → 1 ≤ length (digits fuel n)
unfolding digits
digits-length zero n h = absurd (omega arith)
digits-length (suc fuel) n h =
    ground (arith, length-append (digits fuel (n / 10)) ((48 + n % 10) ∷ []))

-- A number holds no hyphen.
last_hyphen-digits : (a n : ℕ) (ds : GoString) → read_digits a ds ≡ some n → last_hyphen ds ≡ none
unfolding read_digits last_hyphen
last_hyphen-digits a n [] h = refl
last_hyphen-digits a n (d ∷ ds) h = ground (arith, last_hyphen-digits (a * 10 + (d - 48)) n ds)

last_hyphen-append :
    (xs ds : GoString) → last_hyphen ds ≡ none → last_hyphen (xs ++ 45 ∷ ds) ≡ some (xs, ds)
unfolding last_hyphen
last_hyphen-append [] ds h = ground arith
last_hyphen-append (x ∷ xs) ds h = rw (last_hyphen-append xs ds h) refl

-- A byte before a text that was split.
abbrev onto : ℕ → Option (GoString × GoString) → Option (GoString × GoString)
onto a o = elim o [ none ↦ none | some (label, cc) ↦ some (a ∷ label, cc) ]

split_country-append :
    (label : GoString) (b c : ℕ)
    → is_upper b ≡ true
    → is_upper c ≡ true
    → split_country (label ++ 45 ∷ b ∷ c ∷ []) ≡ some (label, b ∷ c ∷ [])
unfolding split_country
split_country-append [] b c hb hc = ground arith
split_country-append (x ∷ []) b c hb hc = ap (onto x) (split_country-append [] b c hb hc)
split_country-append (x ∷ y ∷ []) b c hb hc = ap (onto x) (split_country-append (y ∷ []) b c hb hc)
split_country-append (x ∷ y ∷ z ∷ []) b c hb hc =
    ap (onto x) (split_country-append (y ∷ z ∷ []) b c hb hc)
split_country-append (x ∷ y ∷ z ∷ w ∷ label) b c hb hc =
    ap (onto x) (split_country-append (y ∷ z ∷ w ∷ label) b c hb hc)

kept_bytes-label : (s : GoString) → all_label_bytes (kept_bytes s) ≡ true
unfolding kept_bytes all_label_bytes
kept_bytes-label [] = refl
kept_bytes-label (r ∷ s) = ground (arith, kept_bytes-label s)

take-label : (n : ℕ) (s : GoString) → all_label_bytes s ≡ true → all_label_bytes (take n s) ≡ true
unfolding all_label_bytes
take-label zero s h = refl
take-label (suc n) [] h = refl
take-label (suc n) (r ∷ s) h = ground (arith, take-label n s)

length-take_bound : (n : ℕ) (s : GoString) → length (take n s) ≤ n
length-take_bound zero s = omega arith
length-take_bound (suc n) [] = omega arith
length-take_bound (suc n) (r ∷ s) = omega (arith, length-take_bound n s)

-- What sanitizeLabel makes is a label of the display names.
label_or_fallback-label :
    (s : GoString) → all_label_bytes s ≡ true → is_label (label_or_fallback s) ≡ true
unfolding all_label_bytes
label_or_fallback-label [] h = refl
label_or_fallback-label (r ∷ s) h =
    ground (arith, take-label 12 (r ∷ s) h, length-take_bound 12 (r ∷ s))

sanitize_label-label : (label : GoString) → is_label (sanitize_label label) ≡ true
unfolding sanitize_label
sanitize_label-label label = label_or_fallback-label (kept_bytes label) (kept_bytes-label label)

read_two_digits : (n : ℕ) → read_digits 0 (two_digits n) ≡ some n
unfolding read_digits
read_two_digits n = ground (arith, read_digits-digits (suc n) n (omega arith))

two_digits-length : (n : ℕ) → 2 ≤ length (two_digits n)
unfolding digits
two_digits-length n = elim (Bool-cases (ltb n 10)) [
  | inl small ↦ ground (arith, digits-length (suc n) n (omega arith))
  | inr big ↦ ground (
    arith,
    digits-length n (n / 10) (ground arith),
    length-append (digits n (n / 10)) ((48 + n % 10) ∷ []),
  )
]

seq_of-digits :
    (n : ℕ) (ds : GoString)
    → read_digits 0 ds ≡ some n
    → 2 ≤ length ds
    → n < 2 ^ 63
    → seq_of ds ≡ some n
unfolding seq_of
seq_of-digits n ds r l h = ground (arith, lt→ltb n (2 ^ 63) h)

no_hyphen : (n : ℕ) → last_hyphen (two_digits n) ≡ none
no_hyphen n = last_hyphen-digits 0 n (two_digits n) (read_two_digits n)

format_shape :
    (cc label ds : GoString)
    → label ++ codes "-" ++ cc ++ codes "-" ++ ds ≡ (label ++ 45 ∷ cc) ++ 45 ∷ ds
format_shape country label ds =
    append_assoc (label ++ codes "-" ++ country) (codes "-") ds
    ∙ ap (λ x. x ++ 45 ∷ ds) (append_assoc label (codes "-") country)

-- The parts of a name, as the parser takes them.
parsed :
    (s rest ds label country : GoString) (n : ℕ)
    → last_hyphen s ≡ some (rest, ds)
    → split_country rest ≡ some (label, country)
    → seq_of ds ≡ some n
    → is_label label ≡ true
    → parse_display_name s ≡ some (country, label, n)
unfolding parse_display_name
parsed s rest ds label country n a b c d = ground arith

-- The display name made of a country of two capital letters, a sanitized label and a number below
-- 2^63 parses as that country, that label and that number.
pub parse_display_name-format_display_name :
    (b c : ℕ) (label : GoString) (n : ℕ)
    → is_upper b ≡ true
    → is_upper c ≡ true
    → n < 2 ^ 63
    → parse_display_name (format_display_name (b ∷ c ∷ []) (sanitize_label label) n)
      ≡ some (b ∷ c ∷ [], sanitize_label label, n)
parse_display_name-format_display_name b c label n hb hc h =
    let ds = two_digits n in
    let named = sanitize_label label ++ 45 ∷ b ∷ c ∷ [] in
    subst (λ s. parse_display_name s ≡ some (b ∷ c ∷ [], sanitize_label label, n))
      (sym (format_shape (b ∷ c ∷ []) (sanitize_label label) ds))
      (parsed (named ++ 45 ∷ ds) named ds (sanitize_label label) (b ∷ c ∷ []) n
        (last_hyphen-append named ds (no_hyphen n))
        (split_country-append (sanitize_label label) b c hb hc)
        (seq_of-digits n ds (read_two_digits n) (two_digits-length n) h)
        (sanitize_label-label label))
