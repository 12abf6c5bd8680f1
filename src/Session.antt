-- ===== src/Session.antt =====
-- internal/web/session.go: the tokens of the admin panel and when they expire. The token of Issue is
-- 32 random bytes in base64, an argument here; so are the readings of the clock.
pub mod Lifetime
pub mod Tests
use pio.Base.{
  ℕ, ◌+◌, ◌≡◌, Bool, true, false, Option, none, some, List, [], ◌∷◌, GoString, str_discrete, str_eq,
  ltb, not, if◌then◌else◌,
}
use pio.Base.Map.{Map, find, put, remove}

pub record SessionStore : Type 0 where
  pub ttl : ℕ
  pub tokens : Map GoString ℕ

abbrev pub new_session_store : ℕ → SessionStore
new_session_store ttl = record { ttl = ttl; tokens = [] }

-- gcLocked: the loop that deletes what has expired.
unfoldable pub gc : ℕ → Map GoString ℕ → Map GoString ℕ
gc now [] = []
gc now ((tok, exp) ∷ rest) =
    let left = gc now rest in if not (ltb now exp) then left else (tok, exp) ∷ left

-- The expiry time and the store; `now` and `swept_at` are the two readings of the clock.
unfoldable pub issue : ℕ → ℕ → GoString → SessionStore → ℕ × SessionStore
issue now swept_at token s =
    let expires = now + s.ttl in
    (expires, record s { tokens = gc swept_at (put str_discrete token expires s.tokens) })

unfoldable pub validate : ℕ → GoString → SessionStore → Bool × SessionStore
validate now token s =
    if str_eq token [] then (false, s) else elim (find str_discrete token s.tokens) [
      | none ↦ (false, s)
      | some exp ↦
          if not (ltb now exp)
          then (false, record s { tokens = remove str_discrete token s.tokens })
          else (true, s)
    ]

unfoldable pub revoke : GoString → SessionStore → SessionStore
revoke token s = record s { tokens = remove str_discrete token s.tokens }
