-- ===== src/Prelude/Int.antt =====
-- Signed integers, where the code stores one; `negsuc n` is -(n + 1).
use Prim.Native.Nat.{ℕ}

pub data ℤ : Type 0 where
  pos : ℕ → ℤ
  negsuc : ℕ → ℤ
