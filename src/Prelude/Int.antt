-- ===== src/Prelude/Int.antt =====
-- Go's `int`, where the program uses negative values. `negsuc n` is -(n + 1).
use Prim.Native.Nat.{ℕ}

pub data ℤ : Type 0 where
  pos : ℕ → ℤ
  negsuc : ℕ → ℤ
