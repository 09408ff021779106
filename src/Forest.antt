-- ===== src/Forest.antt =====
-- Hierarchies of objects that name their parents, whatever holds them. `up x` is `none` for an
-- object that is not there, `some none` for a root and `some (some p)` for a child of `p`.
pub mod Order
pub mod Change
pub mod Bound
pub mod Promise
use focus_flow.Common.{ℕ, zero, suc, ◌≡◌, Option, none, some}

abbrev pub Parents : Type 0
Parents = ℕ → Option (Option ℕ)

-- `Rooted up d x`: the chain of parents from `x` ends at a root, `d` steps above.
pub data Rooted (up : Parents) : ℕ → ℕ → Type 0 where
  root : {x : ℕ} → up x ≡ some none → Rooted up zero x
  child : {x d : ℕ} (p : ℕ) → up x ≡ some (some p) → Rooted up d p → Rooted up (suc d) x

-- `Below up a x`: `x` is `a` or one of its descendants.
pub data Below (up : Parents) (a : ℕ) : ℕ → Type 0 where
  self : Below up a a
  under : {x : ℕ} (p : ℕ) → up x ≡ some (some p) → Below up a p → Below up a x

-- `x` is a proper descendant of `a`.
abbrev pub Descendant : Parents → ℕ → ℕ → Type 0
Descendant up a x = (p : ℕ) × (up x ≡ some (some p)) × Below up a p

-- Every parent exists, and no chain of parents is a cycle.
abbrev pub IsForest : Parents → Type 0
IsForest up = (x : ℕ) (q : Option ℕ) → up x ≡ some q → (d : ℕ) × Rooted up d x
