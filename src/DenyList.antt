-- ===== src/DenyList.antt =====
-- internal/auth/denylist.go: the per-address ban after too many failed logins. A time is a number
-- of nanoseconds. The clock reading and the host part found by net.SplitHostPort are arguments.
pub mod Window
pub mod History
pub mod Bans
pub mod Tests
use pio.Base.{
  ℕ, ◌+◌, ◌*◌, Bool, true, false, Option, none, some, List, [], ◌∷◌, ◌++◌, GoString, str_discrete,
  length, ltb, leb, if◌then◌else◌,
}
use pio.Base.Map.{Map, find, put, remove}

abbrev pub threshold : ℕ
threshold = 10

abbrev second : ℕ
second = 1_000_000_000

abbrev pub window : ℕ
window = 60 * second

abbrev pub ban_for : ℕ
ban_for = 300 * second

pub record DenyList : Type 0 where
  pub fails : Map GoString (List ℕ)
  pub banned_at : Map GoString ℕ

abbrev pub new : DenyList
new = record { fails = []; banned_at = [] }

-- A missing key reads as the nil slice.
abbrev pub stamps_of : DenyList → GoString → List ℕ
stamps_of d ip = elim (find str_discrete ip d.fails) [ none ↦ [] | some ts ↦ ts ]

-- `for len(stamps) > 0 && stamps[0].Before(now - window)`: drop the first stamp.
unfoldable pub trim : ℕ → List ℕ → List ℕ
trim now [] = []
trim now (t ∷ ts) = let rest = trim now ts in if ltb (t + window) now then rest else t ∷ ts

-- `split_host` is net.SplitHostPort: the host, or none where it reports an error.
module _ (split_host : GoString → Option GoString) where
  abbrev pub ip_of : GoString → GoString
  ip_of addr = elim (split_host addr) [ some host ↦ host | none ↦ addr ]

  unfoldable pub is_denied : ℕ → DenyList → GoString → Bool × DenyList
  is_denied now d addr = elim (find str_discrete (ip_of addr) d.banned_at) [
    | none ↦ (false, d)
    | some t ↦
        if ltb now (t + ban_for)
        then (true, d)
        else (false, record d { banned_at = remove str_discrete (ip_of addr) d.banned_at })
  ]

  unfoldable pub record_failure : ℕ → DenyList → GoString → Bool × DenyList
  record_failure now d addr =
      let ip = ip_of addr in
      let stamps = trim now (stamps_of d ip ++ now ∷ []) in
      let fails = put str_discrete ip stamps d.fails in
      if leb threshold (length stamps)
      then (
        true,
        record {
          fails = remove str_discrete ip fails;
          banned_at = put str_discrete ip now d.banned_at;
        },
      )
      else (false, record d { fails = fails })

  unfoldable pub clear : DenyList → GoString → DenyList
  clear d addr = record {
    fails = remove str_discrete (ip_of addr) d.fails;
    banned_at = remove str_discrete (ip_of addr) d.banned_at;
  }

unfoldable pub clear_all : DenyList → DenyList
clear_all d = new

-- The entries of `Banned`, by a loop over `bannedAt`.
unfoldable pub banned : ℕ → Map GoString ℕ → Map GoString ℕ
banned now [] = []
banned now ((ip, t) ∷ rest) =
    let out = banned now rest in if ltb now (t + ban_for) then put str_discrete ip t out else out
