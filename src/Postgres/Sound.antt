-- ===== src/Postgres/Sound.antt =====
-- What holds of the tables of the PostgreSQL store whatever its methods did.
pub mod Writes
pub mod Removal
pub mod Focuses
pub mod Checks
pub mod Update
pub mod Delete
pub mod GoalRows
pub mod Goals
use focus_flow.Common.{
  ◌≡◌, Bool, true, ◌||◌, Option, none, some, List, Map, lookup, All, is_some, str_eq,
}
use focus_flow.Forest.{IsForest}
use focus_flow.Model.{Uuid, FocusStatus, done, cancelled}
use focus_flow.Postgres.{FocusObjectRow}
use focus_flow.Postgres.Rows.{FocusGoalRow, FocusGoalLinkRow, FocusSpecificationRow, FocusEventRow}
use focus_flow.Postgres.Schema.{focus_checks, goal_checks}
use focus_flow.Postgres.Sql.{Tables}
use focus_flow.Postgres.Descent.{hierarchy}

-- A table has a row with the key.
abbrev pub Has : {V : Type 0} → Map V → Uuid → Type 0
Has rows id = ¬ (lookup id rows ≡ none)

abbrev pub HasIfGiven : {V : Type 0} → Map V → Option Uuid → Type 0
HasIfGiven rows none = Unit
HasIfGiven rows (some id) = Has rows id

-- Every row of a map has a property.
abbrev pub Rows : {V : Type 0} → Map V → (Uuid → V → Type 0) → Type 0
Rows {V} rows P = (k : Uuid) (row : V) → lookup k rows ≡ some row → P k row

-- Rows stand under their identifiers, and every foreign key refers to a row that exists.
pub record IsIntegral (t : Tables) : Type 0 where
  pub focus_ids : Rows t.focus_object (λ k row. row.id ≡ k)
  pub parents : Rows t.focus_object (λ k row. HasIfGiven t.focus_object row.parent_id)
  pub goal_ids : Rows t.focus_goal (λ k row. row.id ≡ k)
  pub owners : Rows t.focus_goal (λ k row. Has t.focus_object row.focus_object_id)
  pub links :
      All
        (λ link. Has t.focus_goal link.goal_id × Has t.focus_object link.focus_object_id)
        t.focus_goal_link
  pub specifications : Rows t.focus_specification (λ k row. Has t.focus_object row.focus_object_id)
  pub event_foci : Rows t.focus_event (λ k row. HasIfGiven t.focus_object row.focus_object_id)
  pub event_goals : Rows t.focus_event (λ k row. HasIfGiven t.focus_goal row.goal_id)

abbrev pub is_terminal : FocusStatus → Bool
is_terminal status = str_eq status done || str_eq status cancelled

-- The time that a focus was finished is set exactly if its status is terminal.
abbrev pub Finished : FocusObjectRow → Type 0
Finished row = is_some row.finished_at ≡ is_terminal row.status

-- Besides, the hierarchy has no cycle, the time a focus was finished agrees with its status, and the
-- rows of focuses and goals pass the CHECK constraints.
pub record IsSound (t : Tables) : Type 0 where
  pub integral : IsIntegral t
  pub forest : IsForest (hierarchy t.focus_object)
  pub finished : Rows t.focus_object (λ k row. Finished row)
  pub focus_checked : Rows t.focus_object (λ k row. focus_checks row ≡ true)
  pub goal_checked : Rows t.focus_goal (λ k row. goal_checks row ≡ true)
