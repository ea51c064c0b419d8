-- ===== src/Prelude/Int.antt =====
-- Signed decimals (coordinates in units of 1e-7 degree) over the native numbers.
use Prim.Native.Nat.{ℕ}

-- `negsuc n` is -(n + 1).
pub data ℤ : Type 0 where
  pos : ℕ → ℤ
  negsuc : ℕ → ℤ
