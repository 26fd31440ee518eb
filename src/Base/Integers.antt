-- ===== src/Base/Integers.antt =====
-- Python's integers, over the numbers that the development counts with; `negsuc 0` is minus one.
use dbextractors.Base.{ℕ}

pub data ℤ : Type 0 where
  pos : ℕ → ℤ
  negsuc : ℕ → ℤ
