-- ===== src/Session/Lifetime.antt =====
-- How long a session lasts, against its token, its issue and its revocation.
use pio.Base.{
  ℕ, ◌+◌, ◌≤◌, ◌≡◌, refl, true, false, Option, none, some, [], ◌∷◌, GoString, str_discrete, str_eq,
  arith, ltb, not, ite, if◌then◌else◌,
}
use pio.Base.Map.{Map, find, put, find-put, find-remove, UniqueKeys, put-UniqueKeys}
use pio.Session.{SessionStore, gc, issue, validate, revoke}

abbrev alive : ℕ → Option ℕ → Option ℕ
alive now none = none
alive now (some exp) = if ltb now exp then some exp else none

find-gc :
    (now : ℕ) (m : Map GoString ℕ) (tok : GoString)
    → UniqueKeys str_discrete m
    → find str_discrete tok (gc now m) ≡ alive now (find str_discrete tok m)
unfolding gc find
find-gc now [] tok u = refl
find-gc now ((k, exp) ∷ m) tok u = ground (arith, find-gc now m tok u.1, find-gc now m k u.1, u.0)

gc-UniqueKeys :
    (now : ℕ) (m : Map GoString ℕ) → UniqueKeys str_discrete m → UniqueKeys str_discrete (gc now m)
unfolding gc
gc-UniqueKeys now [] u = tt
gc-UniqueKeys now ((k, exp) ∷ m) u =
    let rest = gc-UniqueKeys now m u.1 in
    elim (ltb now exp)
      as (λ b. UniqueKeys str_discrete (if not b then gc now m else (k, exp) ∷ gc now m)) [
        | true ↦ (ground (arith, find-gc now m k u.1, u.0), rest)
        | false ↦ rest
      ]

-- A login keeps each token once.
pub issue-UniqueKeys :
    (now swept_at : ℕ) (token : GoString) (s : SessionStore)
    → UniqueKeys str_discrete s.tokens
    → UniqueKeys str_discrete (issue now swept_at token s).1.tokens
unfolding issue
issue-UniqueKeys now swept_at token s u =
    gc-UniqueKeys swept_at (put str_discrete token (now + s.ttl) s.tokens)
      (put-UniqueKeys str_discrete token (now + s.ttl) s.tokens u)

-- After a login its token is valid until its time to live is over, and every other token is as
-- valid as before: the sweep of expired tokens changes no later answer.
pub validate-issue :
    (now swept_at later : ℕ) (token other : GoString) (s : SessionStore)
    → UniqueKeys str_discrete s.tokens
    → swept_at ≤ later
    → (validate later other (issue now swept_at token s).1).0 ≡ (
        if str_eq other []
        then false
        else ite (str_discrete token other) (ltb later (now + s.ttl)) (validate later other s).0)
unfolding validate issue
validate-issue now swept_at later token other s u h = ground (
  arith,
  find-gc swept_at (put str_discrete token (now + s.ttl) s.tokens) other
      (put-UniqueKeys str_discrete token (now + s.ttl) s.tokens u),
  find-put str_discrete token other (now + s.ttl) s.tokens,
)

-- A logout ends its own session and no other.
pub validate-revoke :
    (now : ℕ) (token other : GoString) (s : SessionStore)
    → (validate now other (revoke token s)).0
      ≡ ite (str_discrete token other) false (validate now other s).0
unfolding validate revoke
validate-revoke now token other s = ground (arith, find-remove str_discrete token other s.tokens)

-- Validation drops an expired token, which changes no answer from then on.
pub validate_stable :
    (now later : ℕ) (token other : GoString) (s : SessionStore)
    → now ≤ later
    → (validate later other (validate now token s).1).0 ≡ (validate later other s).0
unfolding validate
validate_stable now later token other s h =
    ground (arith, find-remove str_discrete token other s.tokens)
