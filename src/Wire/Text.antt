-- ===== src/Wire/Text.antt =====
-- What the handshakes use of strconv and net: decimal numbers, dotted quads and host:port pairs.
use pio.Base.{
  ℕ, zero, suc, ◌+◌, ◌*◌, ◌/◌, ◌%◌, ◌-◌, Option, none, some, [], ◌∷◌, ◌++◌, GoString, among, ◌==◌,
  ltb, leb, ◌&&◌, ◌||◌, not, if◌then◌else◌,
}

-- strconv.Itoa, for a number that is not negative. `fuel` bounds the digits.
unfoldable pub digits : ℕ → ℕ → GoString
digits zero n = []
digits (suc fuel) n =
    let rest = digits fuel (n / 10) in
    if ltb n 10 then (48 + n) ∷ [] else rest ++ (48 + n % 10) ∷ []

abbrev pub itoa : ℕ → GoString
itoa n = digits (suc n) n

-- A string of digits, as a number.
unfoldable pub read_digits : ℕ → GoString → Option ℕ
read_digits n [] = some n
read_digits n (d ∷ ds) =
    let rest = read_digits (n * 10 + (d - 48)) ds in if leb 48 d && ltb d 58 then rest else none

-- strconv.Atoi where its result is not negative; a sign may stand before the digits.
unfoldable pub atoi : GoString → Option ℕ
unfolding read_digits
atoi [] = none
atoi (d ∷ []) = read_digits 0 (d ∷ [])
atoi (d ∷ e ∷ ds) = if d == 43 then read_digits 0 (e ∷ ds) else read_digits 0 (d ∷ e ∷ ds)

-- The part before the last colon, and the part behind it.
unfoldable pub last_colon : GoString → Option (GoString × GoString)
last_colon [] = none
last_colon (b ∷ bs) = elim (last_colon bs) [
  | some (before, behind) ↦ some (b ∷ before, behind)
  | none ↦ if b == 58 then some ([], bs) else none
]

-- The part before the first closing bracket, and the part behind it.
unfoldable pub first_bracket : GoString → Option (GoString × GoString)
first_bracket [] = none
first_bracket (b ∷ bs) =
    let rest = first_bracket bs in
    if b == 93
    then some ([], bs)
    else elim rest [ none ↦ none | some (before, behind) ↦ some (b ∷ before, behind) ]

-- No bracket may stand in a host or a port.
abbrev plain : GoString → GoString → Option (GoString × GoString)
plain host port =
    if among 91 host || among 93 host || among 91 port || among 93 port
    then none
    else some (host, port)

-- net.SplitHostPort of "[host]:port", behind the opening bracket.
abbrev split_bracketed : GoString → Option (GoString × GoString)
split_bracketed rest = elim (first_bracket rest) [
  | none ↦ none
  | some (host, []) ↦ none
  | some (host, b ∷ port) ↦ if not (b == 58) || among 58 port then none else plain host port
]

-- net.SplitHostPort of "host:port".
abbrev split_plain : GoString → Option (GoString × GoString)
split_plain hostport = elim (last_colon hostport) [
  | none ↦ none
  | some (host, port) ↦ if among 58 host then none else plain host port
]

unfoldable pub split_host_port : GoString → Option (GoString × GoString)
unfolding last_colon first_bracket
split_host_port [] = none
split_host_port (b ∷ bs) = if b == 91 then split_bracketed bs else split_plain (b ∷ bs)
