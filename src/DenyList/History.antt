-- ===== src/DenyList/History.antt =====
-- A ban against the history of failures: the specification keeps every failure since the last ban
-- of an address and looks at the last sixty seconds; the code keeps only what is in its window.
use pio.Base.{
  ℕ, ◌≤◌, ◌≡◌, refl, Bool, true, false, Option, List, [], ◌∷◌, ◌++◌, GoString, str_discrete, arith,
  length, leb, All, ite, if◌then◌else◌,
}
use mathlib.Core.Path.{ap₂}
use pio.Base.Map.{find, put, find-put, find-remove}
use pio.DenyList.{DenyList, threshold, stamps_of, trim, ip_of, record_failure, new}
use pio.DenyList.Window.{
  recent, IsSorted, trim-eq-recent, recent-append, recent-recent, recent-IsSorted, append-IsSorted,
  recent_le,
}

-- All failures of each address since its last ban.
abbrev pub Histories : Type 0
Histories = GoString → List ℕ

abbrev pub no_failures : Histories
no_failures ip = []

abbrev assign : Histories → GoString → List ℕ → Histories
assign s ip ts = λ j. ite (str_discrete ip j) ts (s j)

-- The tenth failure within sixty seconds bans and starts a new history.
unfoldable pub spec_fail : ℕ → Histories → GoString → Bool × Histories
spec_fail now s ip =
    let failures = s ip ++ now ∷ [] in
    if leb threshold (length (recent now failures))
    then (true, assign s ip [])
    else (false, assign s ip failures)

-- The stamps in the code are the failures that some earlier window kept.
record Agrees (last : ℕ) (stamps failures : List ℕ) : Type 0 where
  trimmed_at : ℕ
  earlier : trimmed_at ≤ last
  window_only : stamps ≡ recent trimmed_at failures
  sorted : IsSorted failures
  past : All (λ t. t ≤ last) failures

record Simulates (last : ℕ) (d : DenyList) (s : Histories) : Type 0 where
  at : (ip : GoString) → Agrees last (stamps_of d ip) (s ip)

All-mono :
    {last now : ℕ} (ts : List ℕ) → last ≤ now → All (λ t. t ≤ last) ts → All (λ t. t ≤ now) ts
All-mono [] h a = tt
All-mono (t ∷ ts) h a = (omega arith, All-mono ts h a.1)

All-snoc : (now : ℕ) (ts : List ℕ) → All (λ t. t ≤ now) ts → All (λ t. t ≤ now) (ts ++ now ∷ [])
All-snoc now [] a = (omega arith, tt)
All-snoc now (t ∷ ts) a = (a.0, All-snoc now ts a.1)

Agrees-later :
    {last now : ℕ} {stamps failures : List ℕ}
    → last ≤ now
    → Agrees last stamps failures
    → Agrees now stamps failures
Agrees-later {failures = fs} h a = record {
  trimmed_at = a.trimmed_at;
  earlier = omega arith;
  window_only = a.window_only;
  sorted = a.sorted;
  past = All-mono fs h a.past;
}

Agrees-nil : (now : ℕ) → Agrees now [] []
unfolding recent
Agrees-nil now = record {
  trimmed_at = now;
  earlier = omega arith;
  window_only = refl;
  sorted = tt;
  past = tt;
}

module _ {last now : ℕ} {stamps failures : List ℕ} (h : last ≤ now)
    (a : Agrees last stamps failures) where
  -- What RecordFailure keeps of its own stamps is what the window keeps of the whole history.
  trim-Agrees : trim now (stamps ++ now ∷ []) ≡ recent now (failures ++ now ∷ [])
  trim-Agrees =
      rw
        (
          a.window_only,
          trim-eq-recent now (recent a.trimmed_at failures ++ now ∷ []) (
              append-IsSorted now (recent a.trimmed_at failures)
                (recent-IsSorted a.trimmed_at failures a.sorted)
                (recent_le now a.trimmed_at failures (All-mono failures h a.past))),
        )
        (rw (
          recent-append now (recent a.trimmed_at failures) (now ∷ []),
          recent-append now failures (now ∷ []),
          recent-recent a.trimmed_at now failures (omega (arith, a.earlier)),
        ))

  Agrees-snoc : Agrees now (trim now (stamps ++ now ∷ [])) (failures ++ now ∷ [])
  Agrees-snoc = record {
    trimmed_at = now;
    earlier = omega arith;
    window_only = trim-Agrees;
    sorted = append-IsSorted now failures a.sorted (All-mono failures h a.past);
    past = All-snoc now failures (All-mono failures h a.past);
  }

-- Failures in the order of time, from `last` on.
abbrev pub InOrder : ℕ → List (ℕ × GoString) → Type 0
InOrder last [] = Unit
InOrder last ((now, addr) ∷ rest) = (last ≤ now) × InOrder now rest

module _ (split_host : GoString → Option GoString) where
  -- What RecordFailure answers to a list of timed failures.
  unfoldable pub verdicts : DenyList → List (ℕ × GoString) → List Bool
  verdicts d [] = []
  verdicts d ((now, addr) ∷ rest) =
      let (answer, d') = record_failure split_host now d addr in answer ∷ verdicts d' rest

  unfoldable pub spec_verdicts : Histories → List (ℕ × GoString) → List Bool
  spec_verdicts s [] = []
  spec_verdicts s ((now, addr) ∷ rest) =
      let (answer, s') = spec_fail now s (ip_of split_host addr) in answer ∷ spec_verdicts s' rest

  module _ (last now : ℕ) (d : DenyList) (s : Histories) (addr : GoString) where
    record_failure-answer :
        last ≤ now
        → Simulates last d s
        → (record_failure split_host now d addr).0 ≡ (spec_fail now s (ip_of split_host addr)).0
    unfolding record_failure spec_fail
    record_failure-answer h sim = ground (arith, trim-Agrees h (sim.at (ip_of split_host addr)))

    -- The stamps of every address after a failure.
    stamps_of-record_failure :
        (ip : GoString)
        → let kept = trim now (stamps_of d (ip_of split_host addr) ++ now ∷ []) in
          stamps_of (record_failure split_host now d addr).1 ip
          ≡ ite
              (str_discrete (ip_of split_host addr) ip)
              (if leb threshold (length kept) then [] else kept)
              (stamps_of d ip)
    unfolding record_failure
    stamps_of-record_failure ip =
        let from = ip_of split_host addr in
        let kept = trim now (stamps_of d from ++ now ∷ []) in
        ground (
          arith,
          find-put str_discrete from ip kept d.fails,
          find-remove str_discrete from ip (put str_discrete from kept d.fails),
        )

    spec_fail-at :
        (ip : GoString)
        → let from = ip_of split_host addr in
          let failures = s from ++ now ∷ [] in
          (spec_fail now s from).1 ip
          ≡ ite
              (str_discrete from ip)
              (if leb threshold (length (recent now failures)) then [] else failures)
              (s ip)
    unfolding spec_fail
    spec_fail-at ip = ground arith

    Agrees-if :
        (b : Bool) {ts us : List ℕ}
        → Agrees now ts us
        → Agrees now (if b then [] else ts) (if b then [] else us)
    Agrees-if true a = Agrees-nil now
    Agrees-if false a = a

    record_failure-Simulates :
        last ≤ now
        → Simulates last d s
        → Simulates now
            (record_failure split_host now d addr).1
            (spec_fail now s (ip_of split_host addr)).1
    record_failure-Simulates h sim = record {
      at = λ ip.
          let from = ip_of split_host addr in
          rw (stamps_of-record_failure ip, spec_fail-at ip)
            (elim (str_discrete from ip)
              as (λ x.
                Agrees now
                  (ite x
                    (if leb threshold (length (trim now (stamps_of d from ++ now ∷ [])))
                      then []
                      else trim now (stamps_of d from ++ now ∷ []))
                    (stamps_of d ip))
                  (ite x
                    (if leb threshold (length (recent now (s from ++ now ∷ [])))
                      then []
                      else s from ++ now ∷ [])
                    (s ip))) [
                      | yes p ↦ rw (← trim-Agrees h (sim.at from)) (
                          Agrees-if
                            (leb threshold (length (trim now (stamps_of d from ++ now ∷ []))))
                            (Agrees-snoc h (sim.at from)))
                      | no p ↦ Agrees-later h (sim.at ip)
                    ]);
    }

  verdicts_simulate :
      (last : ℕ) (d : DenyList) (s : Histories) (events : List (ℕ × GoString))
      → Simulates last d s
      → InOrder last events
      → verdicts d events ≡ spec_verdicts s events
  unfolding verdicts spec_verdicts
  verdicts_simulate last d s [] sim o = refl
  verdicts_simulate last d s ((now, addr) ∷ rest) sim o =
      ap₂ ◌∷◌ (record_failure-answer last now d s addr o.0 sim) (
        verdicts_simulate now (record_failure split_host now d addr).1
          (spec_fail now s (ip_of split_host addr)).1 rest
          (record_failure-Simulates last now d s addr o.0 sim) o.1)

  -- For failures in the order of time, the ban decisions of a new deny-list are those of the
  -- specification that remembers every failure of an address since its last ban.
  pub verdicts-eq-spec :
      (events : List (ℕ × GoString))
      → InOrder 0 events
      → verdicts new events ≡ spec_verdicts no_failures events
  verdicts-eq-spec events o =
      verdicts_simulate 0 new no_failures events (record { at = λ ip. unfold find in Agrees-nil 0 })
        o
