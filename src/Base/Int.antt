-- ===== src/Base/Int.antt =====
-- Signed values: `ssize_t`, `int` and the differences of pointers.
use Prim.Native.Nat.{ℕ}

-- `negsuc n` is -(n + 1).
pub data ℤ : Type 0 where
  pos : ℕ → ℤ
  negsuc : ℕ → ℤ
