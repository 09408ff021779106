-- ===== src/Postgres/Statements.antt =====
-- backend/internal/storage/postgres: the SQL statements of focus_store.go and goal_store.go, on the
-- tables of migrations/000001_initial_schema.sql. CHECK constraints are tested before the primary
-- key, and foreign keys at the end of the statement; a statement that returns an error has no effect.
use focus_flow.Common.{
  ℕ, Bool, false, not, ◌||◌, Option, none, some, List, [], ◌∷◌, Map, lookup, contains, insert,
  member, keep_if, length, is_some, ◌==◌, if◌then◌else◌, sort_slice, by_key,
}
use focus_flow.Model.{Uuid}
use focus_flow.Postgres.{FocusObjectRow, select_after}
use focus_flow.Postgres.Rows.{FocusGoalRow, FocusSpecificationRow, FocusEventRow}
use focus_flow.Postgres.Sql.{
  Tables, Statement, guarded, Reply, reply, fail, endless, no_rows, foreign_key_violation,
  unique_violation, check_violation,
}
use focus_flow.Postgres.Schema.{focus_checks, event_checks, refers}
use focus_flow.Postgres.Descent.{children_of, exists_below, erase_all, cascade}

-- The rows of a table that meet a condition.
unfoldable pub rows_where : {V : Type 0} → (V → Bool) → Map V → List V
rows_where p [] = []
rows_where p ((k, row) ∷ rows) = let rest = rows_where p rows in if p row then row ∷ rest else rest

abbrev pub one_row : {V : Type 0} → Option V → Reply V
one_row none = fail no_rows
one_row (some row) = reply row

abbrev pub is_id : Uuid → Option Uuid → Bool
is_id id none = false
is_id id (some x) = x == id

unfoldable pub select_focus : Uuid → Statement FocusObjectRow
select_focus id tables = (one_row (lookup id tables.focus_object), tables)

unfoldable pub select_flows : Option Uuid → ℕ → Statement (List FocusObjectRow)
select_flows after limit tables = (
  reply (
      select_after (λ row. row.id) after limit
        (rows_where (λ row. not (is_some row.parent_id)) tables.focus_object)),
  tables,
)

unfoldable pub select_children : Uuid → Option Uuid → ℕ → Statement (List FocusObjectRow)
select_children parent after limit tables = (
  reply (
      select_after (λ row. row.id) after limit
        (rows_where (λ row. is_id parent row.parent_id) tables.focus_object)),
  tables,
)

unfoldable pub insert_focus : FocusObjectRow → Statement FocusObjectRow
insert_focus row =
    guarded (λ t. not (focus_checks row)) check_violation
      (guarded (λ t. contains row.id t.focus_object) unique_violation
        (guarded (λ t. not (refers row.parent_id t.focus_object)) foreign_key_violation
          λ t. (reply row, record t { focus_object = insert row.id row t.focus_object })))

-- The columns that SET names.
abbrev pub set_focus : FocusObjectRow → FocusObjectRow → FocusObjectRow
set_focus row old = record row { id = old.id; created_at = old.created_at }

unfoldable pub update_focus_row : FocusObjectRow → Statement FocusObjectRow
update_focus_row row tables = elim (lookup row.id tables.focus_object) [
  | none ↦ (fail no_rows, tables)
  | some old ↦
      guarded (λ t. not (focus_checks (set_focus row old))) check_violation
        (guarded (λ t. not (refers row.parent_id t.focus_object)) foreign_key_violation
          λ t. (
            reply (set_focus row old),
            record t { focus_object = insert row.id (set_focus row old) t.focus_object },
          ))
        tables
]

-- ON DELETE SET NULL
abbrev pub cleared_if : (Uuid → Bool) → Option Uuid → Option Uuid
cleared_if gone none = none
cleared_if gone (some id) = if gone id then none else some id

unfoldable pub clear_events : (Uuid → Bool) → (Uuid → Bool) → Map FocusEventRow → Map FocusEventRow
clear_events focus_gone goal_gone [] = []
clear_events focus_gone goal_gone ((k, row) ∷ rows) =
    (
      k,
      record row {
        focus_object_id = cleared_if focus_gone row.focus_object_id;
        goal_id = cleared_if goal_gone row.goal_id;
      },
    )
    ∷ clear_events focus_gone goal_gone rows

-- The keys of the rows that meet a condition.
unfoldable pub keys_where : {V : Type 0} → (V → Bool) → Map V → List Uuid
keys_where p [] = []
keys_where p ((k, row) ∷ rows) = let rest = keys_where p rows in if p row then k ∷ rest else rest

abbrev pub goals_of : List Uuid → Map FocusGoalRow → List Uuid
goals_of ids = keys_where (λ row. member row.focus_object_id ids)

abbrev pub specifications_of : List Uuid → Map FocusSpecificationRow → List Uuid
specifications_of ids = keys_where (λ row. member row.focus_object_id ids)

-- What the foreign keys do when some focuses and some goals go.
unfoldable pub remove_rows : List Uuid → List Uuid → Tables → Tables
remove_rows foci goals tables = record {
  focus_object = erase_all foci tables.focus_object;
  focus_goal = erase_all goals tables.focus_goal;
  focus_goal_link =
      keep_if (λ link. not (member link.goal_id goals || member link.focus_object_id foci))
        tables.focus_goal_link;
  focus_specification =
      erase_all (specifications_of foci tables.focus_specification) tables.focus_specification;
  focus_event = clear_events (λ id. member id foci) (λ id. member id goals) tables.focus_event;
}

abbrev pub removed_foci : Tables → Option (List Uuid) → Reply ℕ × Tables
removed_foci tables none = (endless, tables)
removed_foci tables (some ids) = (reply 1, remove_rows ids (goals_of ids tables.focus_goal) tables)

-- The reply is the number of rows affected.
unfoldable pub delete_focus_row : Uuid → Statement ℕ
delete_focus_row id tables = elim (lookup id tables.focus_object) [
  | none ↦ (reply 0, tables)
  | some _ ↦
      removed_foci tables (cascade (length tables.focus_object) (id ∷ []) tables.focus_object)
]

abbrev pub found_below : Option Bool → Reply Bool
found_below none = endless
found_below (some found) = reply found

-- The recursive query of ensureCanMoveFocus.
unfoldable pub select_below : Uuid → Uuid → Statement Bool
select_below id target tables = (
  found_below (
      exists_below (length tables.focus_object) (children_of (id ∷ []) tables.focus_object)
        tables.focus_object target),
  tables,
)

unfoldable pub select_specifications : Uuid → Statement (List FocusSpecificationRow)
select_specifications focus tables = (
  reply (
      sort_slice (by_key λ row. row.id)
        (rows_where (λ row. row.focus_object_id == focus) tables.focus_specification)),
  tables,
)

unfoldable pub insert_event_row : FocusEventRow → Statement (Unit {0})
insert_event_row row =
    guarded (λ t. not (event_checks row)) check_violation
      (guarded (λ t. contains row.id t.focus_event) unique_violation
        (guarded (λ t. not (refers row.focus_object_id t.focus_object)) foreign_key_violation
          (guarded (λ t. not (refers row.goal_id t.focus_goal)) foreign_key_violation
            λ t. (reply tt, record t { focus_event = insert row.id row t.focus_event }))))
