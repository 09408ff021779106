-- ===== src/Postgres/GoalStatements.antt =====
-- backend/internal/storage/postgres/goal_store.go: the SQL statements on goals and their links.
use focus_flow.Common.{
  ℕ, Bool, false, not, ◌&&◌, ◌||◌, Option, none, some, List, [], ◌∷◌, Map, lookup, contains, insert,
  keep_if, length, ◌==◌, if◌then◌else◌, sort_slice, by_key,
}
use focus_flow.Model.{Uuid, FocusStatus}
use focus_flow.Postgres.{FocusObjectRow, select_after}
use focus_flow.Postgres.Rows.{FocusGoalRow, FocusGoalLinkRow}
use focus_flow.Postgres.Sql.{
  Statement, guarded, reply, fail, no_rows, foreign_key_violation, unique_violation,
  check_violation,
}
use focus_flow.Postgres.Schema.{goal_checks}
use focus_flow.Postgres.Statements.{one_row, rows_where, remove_rows}

unfoldable pub select_goal : Uuid → Statement FocusGoalRow
select_goal id tables = (one_row (lookup id tables.focus_goal), tables)

unfoldable pub select_goals : Uuid → Option Uuid → ℕ → Statement (List FocusGoalRow)
select_goals focus after limit tables = (
  reply (
      select_after (λ row. row.id) after limit
        (rows_where (λ row. row.focus_object_id == focus) tables.focus_goal)),
  tables,
)

unfoldable pub insert_goal : FocusGoalRow → Statement FocusGoalRow
insert_goal row =
    guarded (λ t. not (goal_checks row)) check_violation
      (guarded (λ t. contains row.id t.focus_goal) unique_violation
        (guarded (λ t. not (contains row.focus_object_id t.focus_object)) foreign_key_violation
          λ t. (reply row, record t { focus_goal = insert row.id row t.focus_goal })))

-- The columns that SET names.
abbrev pub set_goal : FocusGoalRow → FocusGoalRow → FocusGoalRow
set_goal row old = record old {
  goal_type = row.goal_type;
  description = row.description;
  status_override = row.status_override;
  updated_at = row.updated_at;
  finished_at = row.finished_at;
}

unfoldable pub update_goal_row : FocusGoalRow → Statement FocusGoalRow
update_goal_row row tables = elim (lookup row.id tables.focus_goal) [
  | none ↦ (fail no_rows, tables)
  | some old ↦
      guarded (λ t. not (goal_checks (set_goal row old))) check_violation
        (λ t. (
          reply (set_goal row old),
          record t { focus_goal = insert row.id (set_goal row old) t.focus_goal },
        ))
        tables
]

-- The reply is the number of rows affected.
unfoldable pub delete_goal_row : Uuid → Statement ℕ
delete_goal_row id tables = elim (lookup id tables.focus_goal) [
  | none ↦ (reply 0, tables)
  | some _ ↦ (reply 1, remove_rows [] (id ∷ []) tables)
]

abbrev pub is_link : Uuid → Uuid → FocusGoalLinkRow → Bool
is_link goal focus link = (link.goal_id == goal) && (link.focus_object_id == focus)

unfoldable pub has_link : Uuid → Uuid → List FocusGoalLinkRow → Bool
has_link goal focus [] = false
has_link goal focus (link ∷ links) = is_link goal focus link || has_link goal focus links

abbrev pub new_link : Uuid → Uuid → FocusGoalLinkRow
new_link goal focus = record { goal_id = goal; focus_object_id = focus }

-- `ON CONFLICT DO NOTHING`
unfoldable pub insert_link : Uuid → Uuid → Statement (Unit {0})
insert_link goal focus tables =
    if has_link goal focus tables.focus_goal_link
    then (reply tt, tables)
    else guarded (λ t. not (contains goal t.focus_goal)) foreign_key_violation
        (guarded (λ t. not (contains focus t.focus_object)) foreign_key_violation
          λ t. (reply tt, record t { focus_goal_link = new_link goal focus ∷ t.focus_goal_link }))
        tables

unfoldable pub delete_links : Uuid → Statement (Unit {0})
delete_links goal tables = (
  reply tt,
  record tables {
    focus_goal_link = keep_if (λ link. not (link.goal_id == goal)) tables.focus_goal_link;
  },
)

-- The reply is the number of rows affected.
unfoldable pub delete_link : Uuid → Uuid → Statement ℕ
delete_link goal focus tables = (
  reply (length (keep_if (is_link goal focus) tables.focus_goal_link)),
  record tables {
    focus_goal_link = keep_if (λ link. not (is_link goal focus link)) tables.focus_goal_link;
  },
)

-- A row of the join of a link with its focus.
pub record LinkedRow : Type 0 where
  pub focus_object_id : Uuid
  pub status : FocusStatus

unfoldable pub join_links : Uuid → Map FocusObjectRow → List FocusGoalLinkRow → List LinkedRow
join_links goal foci [] = []
join_links goal foci (link ∷ links) =
    let rest = join_links goal foci links in
    if link.goal_id == goal
    then elim (lookup link.focus_object_id foci) [
      | none ↦ rest
      | some focus ↦ record { focus_object_id = link.focus_object_id; status = focus.status } ∷ rest
    ]
    else rest

unfoldable pub select_linked : Uuid → Statement (List LinkedRow)
select_linked goal tables = (
  reply (
      sort_slice (by_key λ row. row.focus_object_id)
        (join_links goal tables.focus_object tables.focus_goal_link)),
  tables,
)
