-- ===== src/Storage.antt =====
-- backend/internal/storage: the errors of the storage boundary (connection.go) and what a method
-- returns.
use focus_flow.Common.{String}

-- ErrNotFound, ErrInvalidHierarchy, and any other error, by its text.
pub data Error : Type 0 where
  not_found invalid_hierarchy : Error
  other : String → Error

-- `(value, error)` of a method. `overflow` is a recursion that does not end, which in Go
-- exhausts the stack.
pub data Outcome {ℓ} (A : Type ℓ) : Type ℓ where
  ok : A → Outcome A
  err : Error → Outcome A
  overflow : Outcome A
