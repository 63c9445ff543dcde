-- ===== src/Prelude/Ints.antt =====
-- Signed integers, where the program has them: return codes and limits.
use Prim.Native.Nat.{ℕ}

-- `negsuc n` is -(n + 1).
pub data ℤ : Type 0 where
  pos : ℕ → ℤ
  negsuc : ℕ → ℤ
