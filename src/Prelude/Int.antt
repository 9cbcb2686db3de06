-- ===== src/Prelude/Int.antt =====
-- The signed integers that the program passes for sizes: `negsuc n` is -(n + 1).
use planning_service.Prelude.{ℕ}

pub data ℤ : Type 0 where
  pos : ℕ → ℤ
  negsuc : ℕ → ℤ
