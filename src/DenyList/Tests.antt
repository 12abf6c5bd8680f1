-- ===== src/DenyList/Tests.antt =====
-- Runs of the deny-list: ten failures in a minute and what follows.
use pio.Base.{
  ℕ, ◌≡◌, refl, true, false, Option, none, some, [], ◌∷◌, GoString, codes, str_discrete, ℕ_discrete,
  ltb, ◌+◌, arith,
}
use pio.Base.Map.{find, put, remove}
use pio.Wire.Text.{split_host_port}
use pio.DenyList.{DenyList, new, ban_for, is_denied, record_failure, trim}
use pio.DenyList.History.{verdicts, spec_verdicts, no_failures, verdicts-eq-spec}
use pio.DenyList.Bans.{ban_exact}

abbrev host_of : GoString → Option GoString
host_of addr = elim (split_host_port addr) [ none ↦ none | some (host, port) ↦ some host ]

abbrev client : GoString
client = codes "9.9.9.9:1"

-- The client after nine failures, one each second.
abbrev nine : DenyList
nine = record {
  fails =
      (
        codes "9.9.9.9",
        1_000_000_000 ∷ 2_000_000_000 ∷ 3_000_000_000 ∷ 4_000_000_000 ∷ 5_000_000_000
            ∷ 6_000_000_000 ∷ 7_000_000_000 ∷ 8_000_000_000 ∷ 9_000_000_000 ∷ [],
      )
      ∷ [];
  banned_at = [];
}

abbrev ten_seconds : ℕ
ten_seconds = 10_000_000_000

tenth_bans : (record_failure host_of ten_seconds nine client).0 ≡ true
unfolding record_failure trim find put remove str_discrete ℕ_discrete split_host_port
tenth_bans = refl

first_does_not : (record_failure host_of ten_seconds new client).0 ≡ false
unfolding record_failure trim find put remove str_discrete ℕ_discrete split_host_port
first_does_not = refl

verdicts-eq-spec_example :
    verdicts host_of new ((1, client) ∷ (2, client) ∷ [])
    ≡ spec_verdicts host_of no_failures ((1, client) ∷ (2, client) ∷ [])
verdicts-eq-spec_example =
    verdicts-eq-spec host_of ((1, client) ∷ (2, client) ∷ []) (omega arith, (omega arith, tt))

ban_exact_example :
    (is_denied host_of 11_000_000_000 (record_failure host_of ten_seconds nine client).1 client).0
    ≡ ltb 11_000_000_000 (ten_seconds + ban_for)
ban_exact_example = ban_exact host_of nine ten_seconds 11_000_000_000 client tenth_bans

abbrev ban : DenyList
ban = record { fails = []; banned_at = (codes "9.9.9.9", 5) ∷ [] }
