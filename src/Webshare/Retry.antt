-- ===== src/Webshare/Retry.antt =====
-- How often a page is asked for.
use pio.Base.{
  Option, none, some, GoString, ◌≢◌, ℕ, suc, ◌+◌, ◌≡◌, ◌≤◌, ◌<◌, refl, subst, Bool, true, false,
  List, [], ◌∷◌, inl, inr, length, arith, if◌then◌else◌, ℕ_discrete,
}
use pio.Webshare.{
  Response, ListPage, unbuilt, no_response, responded, decoded, classify, is_ok, fetch_once,
  fetch_with_retry, Attempt, ClientError, Outcome, done, transient, permanent, exhausted,
  context_done, with_retry,
}

module _ (cancelled : ℕ → Bool) {A : Type 0} (once : ℕ → Attempt A) where
  -- The attempts made from the one numbered `n` on, when `n'` is the number of the next.
  abbrev pub SentFrom : ℕ → ℕ → ℕ → Type 0
  SentFrom attempts n n' =
      (n < n')
      × (n' ≤ n + attempts)
      × ((i : ℕ) → n ≤ i → suc i < n' → (e : ClientError) × (once i ≡ transient e))

  one_sent : (attempts n : ℕ) → 1 ≤ attempts → SentFrom attempts n (n + 1)
  one_sent attempts n h = (omega arith, omega arith, λ i a b. absurd (omega arith))

  -- A transient failure before the attempts of a retry.
  SentFrom-retry :
      (attempts n n' : ℕ) (e : ClientError)
      → once n ≡ transient e
      → SentFrom attempts (n + 1) n'
      → SentFrom (suc attempts) n n'
  SentFrom-retry attempts n n' e h (low, high, before) = (
    omega arith,
    omega arith,
    λ i a b. elim (ℕ_discrete n i) [
      | yes p ↦ (e, subst (λ j. once j ≡ transient e) p h)
      | no q ↦ before i (omega arith) b
    ],
  )

  retried :
      (attempts n : ℕ) (stop : Bool) (rest : Outcome A)
      → SentFrom (suc attempts) (n + 1) rest.1
      → (x : Attempt A) → once n ≡ x
      → SentFrom
          (suc (suc attempts))
          n
          (elim x as (λ _. Outcome A) [
            | done a ↦ (inl a, n + 1)
            | permanent e ↦ (inr e, n + 1)
            | transient e ↦ if stop then (inr context_done, n + 1) else rest
          ]).1
  retried attempts n stop rest s (done a) h = one_sent (suc (suc attempts)) n (omega arith)
  retried attempts n stop rest s (permanent e) h = one_sent (suc (suc attempts)) n (omega arith)
  retried attempts n true rest s (transient e) h = one_sent (suc (suc attempts)) n (omega arith)
  retried attempts n false rest s (transient e) h = SentFrom-retry (suc attempts) n rest.1 e h s

  with_retry-SentFrom :
      (delays : List ℕ) (n : ℕ)
      → SentFrom (suc (length delays)) n (with_retry cancelled once delays n).1
  unfolding with_retry
  with_retry-SentFrom [] n =
      elim (once n)
        as (λ x.
          SentFrom 1 n
            (elim x as (λ _. Outcome A) [
              | done a ↦ (inl a, n + 1)
              | permanent e ↦ (inr e, n + 1)
              | transient e ↦ (inr (exhausted e), n + 1)
            ]).1) [
              | done a ↦ one_sent 1 n (omega arith)
              | permanent e ↦ one_sent 1 n (omega arith)
              | transient e ↦ one_sent 1 n (omega arith)
            ]
  with_retry-SentFrom (delay ∷ delays) n =
      retried (length delays) n (cancelled (n + 1)) (with_retry cancelled once delays (n + 1))
        (with_retry-SentFrom delays (n + 1)) (once n) refl

-- No response, or a status from 500 to 599.
abbrev pub Retryable : {A : Type 0} → Response A → Type 0
Retryable unbuilt = ⊥
Retryable no_response = Unit
Retryable (responded code body) = (500 ≤ code) × (code < 600)

Retryable-decoded : {A : Type 0} (body : Option A) (e : ClientError) → decoded body ≢ transient e
Retryable-decoded none e h = absurd (ground arith)
Retryable-decoded (some a) e h = absurd (ground arith)

classify-Retryable :
    {A : Type 0} (good : ℕ → Bool) (r : Response A) (e : ClientError)
    → classify good r ≡ transient e
    → Retryable r
unfolding classify
classify-Retryable good unbuilt e h = absurd (ground arith)
classify-Retryable good no_response e h = tt
classify-Retryable good (responded code body) e h = ground (arith, Retryable-decoded body e)

-- fetchWithRetry makes one attempt at least, and at most one more than there are delays. Each attempt
-- but the last met no response or a status from 500 to 599: no other answer, and no request that
-- cannot be built, is tried again.
pub fetch_with_retry-Retryable :
    (cancelled : ℕ → Bool) (delays : List ℕ) (server : ℕ → GoString → Response ListPage)
    (url : GoString) (n : ℕ)
    → let n' = (fetch_with_retry cancelled delays server url n).1 in
      (n < n')
      × (n' ≤ n + suc (length delays))
      × ((i : ℕ) → n ≤ i → suc i < n' → Retryable (server i url))
unfolding fetch_with_retry
fetch_with_retry-Retryable cancelled delays server url n =
    let (low, high, before) = with_retry-SentFrom cancelled (fetch_once server url) delays n in
    (low, high, λ i a b. let (e, h) = before i a b in classify-Retryable is_ok (server i url) e h)
