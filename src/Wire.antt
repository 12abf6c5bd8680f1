-- ===== src/Wire.antt =====
-- A net.Conn as the handshakes use it, in the internal/listener and internal/tunnel packages: the
-- bytes that the peer sends before it ends or a deadline expires, the bytes that were sent to it,
-- and the number of writes that succeed. A handshake reads and writes, and ends at the first failure.
pub mod Text
pub mod Base64
use pio.Base.{ℕ, zero, suc, ◌-◌, Bool, true, false, List, [], ◌∷◌, ◌++◌, if◌then◌else◌, ◌==◌}

pub record Conn : Type 0 where
  pub incoming : List ℕ
  pub outgoing : List ℕ
  pub writes : ℕ
  pub closed : Bool

pub data Read {ℓ} (A : Type ℓ) : Type ℓ where
  failed : Conn → Read A
  got : A → Conn → Read A

abbrev pub Reader {ℓ} : Type ℓ → Type ℓ
Reader A = Conn → Read A

infixl 5 ◌>>=◌
abbrev pub ◌>>=◌ {ℓ κ} : {A : Type ℓ} {B : Type κ} → Reader A → (A → Reader B) → Reader B
m >>= f = λ c. elim (m c) [ failed c' ↦ failed c' | got a c' ↦ f a c' ]

abbrev pub return {ℓ} : {A : Type ℓ} → A → Reader A
return a c = got a c

abbrev pub close : Conn → Conn
close c = record c { closed = true }

-- io.ReadFull of n bytes: a short read is an error, which takes what there was.
unfoldable pub read_from : ℕ → List ℕ → List ℕ → Conn → Read (List ℕ)
read_from zero taken rest c = got taken (record c { incoming = rest })
read_from (suc n) taken [] c = failed (record c { incoming = [] })
read_from (suc n) taken (b ∷ rest) c = read_from n (taken ++ b ∷ []) rest c

unfoldable pub read_full : ℕ → Reader (List ℕ)
unfolding read_from
read_full n c = read_from n [] c.incoming c

unfoldable pub write : List ℕ → Reader {0} Unit
write bs c =
    if c.writes == 0
    then failed c
    else got tt (record c { outgoing = c.outgoing ++ bs; writes = c.writes - 1 })

-- A write whose error is ignored.
abbrev pub send : List ℕ → Conn → Conn
send bs c = elim (write bs c) [ failed c' ↦ c' | got _ c' ↦ c' ]

-- `if err != nil { ...; return }`
abbrev pub or_else {ℓ} : {A : Type ℓ} → Reader A → (Conn → Conn) → Reader A
or_else m f = λ c. elim (m c) [ failed c' ↦ failed (f c') | got a c' ↦ got a c' ]

-- `if !ok { ...; return }`
abbrev pub require : Bool → (Conn → Conn) → Reader {0} Unit
require ok f = λ c. if ok then got tt c else failed (f c)

-- b[i], of a slice that has it.
abbrev pub byte_at : List ℕ → ℕ → ℕ
byte_at [] i = 0
byte_at (b ∷ bs) zero = b
byte_at (b ∷ bs) (suc i) = byte_at bs i
