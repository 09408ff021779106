-- ===== src/Postgres/Descent.antt =====
-- What a foreign key along `parent_id` makes the database do: the recursive query of
-- ensureCanMoveFocus (focus_store.go) and ON DELETE CASCADE of migrations/000001_initial_schema.sql.
-- Both go down level by level, with fuel for the levels; `none` means that it ran out.
pub mod Search
pub mod Cascade
pub mod Members
use focus_flow.Common.{
  ℕ, zero, suc, Bool, true, false, Option, none, some, List, [], ◌∷◌, ◌++◌, Map, lookup, erase,
  keys, member, keep_if, if◌then◌else◌,
}
use focus_flow.Forest.{Parents}
use focus_flow.Model.{Uuid}
use focus_flow.Postgres.{FocusObjectRow}

abbrev parent_of_row : Option FocusObjectRow → Option (Option Uuid)
parent_of_row none = none
parent_of_row (some row) = some row.parent_id

-- The hierarchy that the rows describe.
abbrev pub hierarchy : Map FocusObjectRow → Parents
hierarchy rows x = parent_of_row (lookup x rows)

abbrev pub has_parent_in : List Uuid → Option (Option Uuid) → Bool
has_parent_in level none = false
has_parent_in level (some none) = false
has_parent_in level (some (some p)) = member p level

-- The rows whose parent is one of a level.
unfoldable pub children_of : List Uuid → Map FocusObjectRow → List Uuid
children_of level rows = keep_if (λ k. has_parent_in level (hierarchy rows k)) (keys rows)

-- `WITH RECURSIVE descendants ... SELECT EXISTS(...)`: is the target in a level? EXISTS reads the
-- rows as the recursion makes them.
unfoldable pub exists_below : ℕ → List Uuid → Map FocusObjectRow → Uuid → Option Bool
exists_below fuel [] rows target = some false
exists_below zero (x ∷ level) rows target = none
exists_below (suc fuel) (x ∷ level) rows target =
    let rest = exists_below fuel (children_of (x ∷ level) rows) rows target in
    if member target (x ∷ level) then some true else rest

unfoldable pub erase_all {ℓ} : {V : Type ℓ} → List Uuid → Map V → Map V
erase_all [] rows = rows
erase_all (x ∷ xs) rows = erase_all xs (erase x rows)

abbrev pub prepend : List Uuid → Option (List Uuid) → Option (List Uuid)
prepend level none = none
prepend level (some ids) = some (level ++ ids)

-- The rows that a deletion removes: a level, then the rows left that refer to it, and so on.
unfoldable pub cascade : ℕ → List Uuid → Map FocusObjectRow → Option (List Uuid)
cascade fuel [] rows = some []
cascade zero (x ∷ level) rows = none
cascade (suc fuel) (x ∷ level) rows =
    let rest = erase_all (x ∷ level) rows in
    prepend (x ∷ level) (cascade fuel (children_of (x ∷ level) rest) rest)
