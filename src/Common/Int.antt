-- ===== src/Common/Int.antt =====
-- The integers of the source: `int` without its bounds.
use Prim.Native.Nat.{ℕ}

pub data ℤ : Type 0 where
  pos : ℕ → ℤ
  negsuc : ℕ → ℤ
