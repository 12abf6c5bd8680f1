-- ===== src/Base/Int.antt =====
-- Machine integers: uint64 wraps around. Signed integers are for values such as a latency of -1. `negsuc n` is -(n + 1).
use Prim.Native.Nat.{ℕ, ◌%◌, ◌^◌}

pub data ℤ : Type 0 where
  pos : ℕ → ℤ
  negsuc : ℕ → ℤ

-- uint64
abbrev pub u64 : ℕ → ℕ
u64 n = n % 2 ^ 64
