-- ===== src/Prelude/Int.antt =====
-- Signed integers over the native numbers: what a C `int` stands for.
use thesis_b_cs_tu_berlin.Prelude.{ℕ}

-- `negsuc n` is -(n + 1).
pub data ℤ : Type 0 where
  pos : ℕ → ℤ
  negsuc : ℕ → ℤ
