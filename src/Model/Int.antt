-- ===== src/Model/Int.antt =====
-- Go's `int` and `int64` where a value can be negative; no number of the program is near the ends
-- of their ranges.
use focus_flow.Common.{ℕ}

-- `negsuc n` is -(n + 1).
pub data ℤ : Type 0 where
  pos : ℕ → ℤ
  negsuc : ℕ → ℤ

-- The rounds of a recursion that goes on while `n > 0` and counts down.
abbrev pub rounds : ℤ → ℕ
rounds (pos n) = n
rounds (negsuc n) = 0
