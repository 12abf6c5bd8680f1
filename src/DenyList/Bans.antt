-- ===== src/DenyList/Bans.antt =====
-- How long a ban lasts, what lifts it, and that looking never changes a later answer.
use pio.Base.{
  ℕ, ◌+◌, ◌≤◌, ◌≡◌, refl, true, false, Option, none, some, [], ◌∷◌, GoString, str_discrete, arith,
  ltb, ite, if◌then◌else◌, ◌∷◌,
}
use pio.Base.Map.{Map, find, find-put, find-remove, UniqueKeys}
use pio.DenyList.{DenyList, ban_for, ip_of, is_denied, record_failure, clear, banned}

module _ (split_host : GoString → Option GoString) (d : DenyList) where
  -- A ban that trips at `now` refuses the address until five minutes later, and no longer.
  pub ban_exact :
      (now later : ℕ) (addr : GoString)
      → (record_failure split_host now d addr).0 ≡ true
      → (is_denied split_host later (record_failure split_host now d addr).1 addr).0
        ≡ ltb later (now + ban_for)
  unfolding record_failure is_denied
  ban_exact now later addr h =
      let ip = ip_of split_host addr in ground (arith, find-put str_discrete ip ip now d.banned_at)

  -- A failure that trips no ban changes no answer.
  pub no_ban_unchanged :
      (now later : ℕ) (addr other : GoString)
      → (record_failure split_host now d addr).0 ≡ false
      → (is_denied split_host later (record_failure split_host now d addr).1 other).0
        ≡ (is_denied split_host later d other).0
  unfolding record_failure is_denied
  no_ban_unchanged now later addr other h = ground arith

  -- Looking drops an expired ban, which changes no answer from then on.
  pub is_denied_stable :
      (now later : ℕ) (addr other : GoString)
      → now ≤ later
      → (is_denied split_host later (is_denied split_host now d addr).1 other).0
        ≡ (is_denied split_host later d other).0
  unfolding is_denied
  is_denied_stable now later addr other h =
      ground (
        arith,
        find-remove str_discrete (ip_of split_host addr) (ip_of split_host other) d.banned_at,
      )

  -- Clearing lifts the ban of its address and of no other.
  pub is_denied-clear :
      (now : ℕ) (addr other : GoString)
      → (is_denied split_host now (clear split_host d addr) other).0
        ≡ ite
            (str_discrete (ip_of split_host addr) (ip_of split_host other))
            false
            (is_denied split_host now d other).0
  unfolding is_denied clear
  is_denied-clear now addr other =
      ground (
        arith,
        find-remove str_discrete (ip_of split_host addr) (ip_of split_host other) d.banned_at,
      )

-- Banned holds a ban exactly while it lasts, with its start.
pub find-banned :
    (now : ℕ) (m : Map GoString ℕ) (ip : GoString)
    → UniqueKeys str_discrete m
    → find str_discrete ip (banned now m) ≡ elim (find str_discrete ip m) [
      | none ↦ none
      | some t ↦ if ltb now (t + ban_for) then some t else none
    ]
unfolding banned find
find-banned now [] ip u = refl
find-banned now ((j, t) ∷ m) ip u = ground (
  arith,
  find-banned now m ip u.1,
  find-banned now m j u.1,
  find-put str_discrete j ip t (banned now m),
)
