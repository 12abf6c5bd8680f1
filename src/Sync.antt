-- ===== src/Sync.antt =====
-- internal/sync/displayname.go: the labels and numbers in the display names of synced upstreams.
pub mod Names
pub mod Reconcile
pub mod Turns
pub mod Outcomes
pub mod Exact
pub mod Others
pub mod RoundTrip
pub mod RowOf
pub mod Refreshed
pub mod Mirror
pub mod Keeping
pub mod Sound
pub mod Lowest
pub mod Tests
use pio.Base.{
  ℕ, zero, suc, ◌+◌, Bool, true, false, Option, none, some, List, [], ◌∷◌, ◌++◌, GoString, codes,
  str_discrete, ℕ_discrete, length, take, ltb, leb, ◌&&◌, ◌||◌, ◌==◌, if◌then◌else◌,
}
use pio.Base.Map.{Map, find, put}
use pio.Wire.Text.{itoa}

abbrev pub display_label_max : ℕ
display_label_max = 12

abbrev pub display_label_fallback : GoString
display_label_fallback = codes "key"

-- An ASCII letter, a digit or a hyphen.
abbrev pub is_label_byte : ℕ → Bool
is_label_byte r =
    (leb 65 r && leb r 90) || (leb 97 r && leb r 122) || (leb 48 r && leb r 57) || (r == 45)

-- The loop over the label. Its runes other than ASCII, of bytes from 128 up, are dropped.
unfoldable pub kept_bytes : GoString → GoString
kept_bytes [] = []
kept_bytes (r ∷ rest) = let out = kept_bytes rest in if is_label_byte r then r ∷ out else out

abbrev pub label_or_fallback : GoString → GoString
label_or_fallback [] = display_label_fallback
label_or_fallback (r ∷ out) = take display_label_max (r ∷ out)

unfoldable pub sanitize_label : GoString → GoString
sanitize_label label = label_or_fallback (kept_bytes label)

-- "%02d"
abbrev pub two_digits : ℕ → GoString
two_digits n = if ltb n 10 then codes "0" ++ itoa n else itoa n

abbrev pub format_display_name : GoString → GoString → ℕ → GoString
format_display_name cc sanitized_label seq =
    sanitized_label ++ codes "-" ++ cc ++ codes "-" ++ two_digits seq

-- map[int]struct{}
abbrev pub Seqs : Type 0
Seqs = Map ℕ Unit

pub record SeqAllocator : Type 0 where
  pub used : Map GoString Seqs

abbrev pub new_seq_allocator : SeqAllocator
new_seq_allocator = record { used = [] }

abbrev pub cc_set : SeqAllocator → GoString → Seqs
cc_set a cc = elim (find str_discrete cc a.used) [ none ↦ [] | some m ↦ m ]

unfoldable pub reserve : GoString → ℕ → SeqAllocator → SeqAllocator
reserve cc seq a = record a {
  used = put str_discrete cc (put ℕ_discrete seq tt (cc_set a cc)) a.used;
}

abbrev pub taken : Seqs → ℕ → Bool
taken m n = elim (find ℕ_discrete n m) [ none ↦ false | some _ ↦ true ]

-- The loop from `n` up, on fuel.
unfoldable pub lowest_free : ℕ → ℕ → Seqs → Option ℕ
lowest_free zero n m = none
lowest_free (suc fuel) n m =
    let above = lowest_free fuel (n + 1) m in if taken m n then above else some n

-- One step of fuel more than there are numbers in use.
unfoldable pub next : GoString → SeqAllocator → Option (ℕ × SeqAllocator)
unfolding lowest_free reserve
next cc a = elim (lowest_free (suc (length (cc_set a cc))) 1 (cc_set a cc)) [
  | none ↦ none
  | some n ↦ some (n, reserve cc n a)
]
