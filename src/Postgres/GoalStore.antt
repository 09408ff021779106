-- ===== src/Postgres/GoalStore.antt =====
-- backend/internal/storage/postgres/goal_store.go: the methods of `storage.GoalStore`, the reads of
-- one focus that they start with, and the inserts of events. The identifier of the user, which the
-- store does not read, is their first argument.
pub mod Reads
pub mod Atomic
use focus_flow.Common.{
  ℕ, ◌+◌, String, Bool, true, false, Option, none, some, List, [], ◌∷◌, ◌++◌, map, ◌==◌,
  if◌then◌else◌, or_keep,
}
use focus_flow.Storage.{not_found}
use focus_flow.Model.{
  Uuid, Time, FocusFields, Goal, GoalFocusLink, CreateGoal, UpdateGoal, Specification, Page,
  PageRequest,
}
use focus_flow.Fake.State.{no_progress}
use focus_flow.Fake.Aggregate.{count_status}
use focus_flow.Fake.Focuses.{nullable}
use focus_flow.Postgres.{focus_from_row, page_limit, cursor_uuid, page_from_items}
use focus_flow.Postgres.Rows.{FocusEventRow, FocusGoalRow, goal_from_row, specification_from_row}
use focus_flow.Postgres.Sql.{
  Action, pure, raise, statement, ◌>>=◌, ◌>>◌, new_id, now, each, transaction, map_not_found,
  as_it_is,
}
use focus_flow.Postgres.Statements.{select_focus, select_specifications, insert_event_row}
use focus_flow.Postgres.GoalStatements.{
  select_goal, select_goals, insert_goal, update_goal_row, delete_goal_row, insert_link,
  delete_links, delete_link, select_linked, LinkedRow,
}

-- getFocusBase
unfoldable pub get_focus_base : Uuid → Action FocusFields
get_focus_base id = do row ← statement map_not_found (select_focus id); pure (focus_from_row row)

abbrev pub event_row : Uuid → Time → Option Uuid → Option Uuid → String → FocusEventRow
event_row id at focus goal kind = record {
  id = id;
  focus_object_id = focus;
  goal_id = goal;
  event_type = kind;
  source = "api";
  raw = "{}";
  created_at = at;
}

-- insertEvent and insertEventTx, whose time is the database's.
unfoldable pub insert_event : Option Uuid → Option Uuid → String → Action (Unit {0})
insert_event focus goal kind = do
  id ← new_id
  at ← now
  statement as_it_is (insert_event_row (event_row id at focus goal kind))

-- The loop of goalAggregate.
unfoldable pub scan_links : List LinkedRow → Goal → Goal
scan_links [] goal = goal
scan_links (row ∷ rows) goal = scan_links rows (record goal {
  linked_focus_ids = goal.linked_focus_ids ++ row.focus_object_id ∷ [];
  progress = count_status row.status goal.progress;
})

unfoldable pub goal_aggregate : Goal → Action Goal
goal_aggregate goal = do
  rows ← statement as_it_is (select_linked goal.id)
  pure (scan_links rows (record goal { linked_focus_ids = []; progress = no_progress }))

unfoldable pub list_specifications : Uuid → Action (List Specification)
list_specifications focus = do
  rows ← statement as_it_is (select_specifications focus)
  pure (map specification_from_row rows)

-- scanGoalRows
unfoldable pub scan_goal_rows : List FocusGoalRow → Action (List Goal)
scan_goal_rows = each (λ row. goal_aggregate (goal_from_row row))

unfoldable pub get_goal : Uuid → Uuid → Action Goal
get_goal user id = do
  row ← statement map_not_found (select_goal id)
  goal_aggregate (goal_from_row row)

-- The loop over the identifiers of linked focuses.
unfoldable pub link_all : Uuid → List Uuid → Action (Unit {0})
link_all goal [] = pure tt
link_all goal (focus ∷ foci) = do
  statement map_not_found (insert_link goal focus)
  link_all goal foci

abbrev pub created_goal_row : Uuid → Time → CreateGoal → FocusGoalRow
created_goal_row id at input = record {
  id = id;
  focus_object_id = input.owner_focus_id;
  goal_type = input.goal_type;
  description = input.description;
  status_override = input.status_override;
  created_at = at;
  updated_at = at;
  finished_at = none;
}

-- The statements of the transaction of CreateGoal.
unfoldable pub create_goal_rows : CreateGoal → Action Uuid
create_goal_rows input = do
  id ← new_id
  at ← now
  row ← statement map_not_found (insert_goal (created_goal_row id at input))
  link_all row.id input.linked_focus_ids
  insert_event none (some row.id) "goal.created"
  pure row.id

unfoldable pub create_goal : Uuid → CreateGoal → Action Goal
create_goal user input = do
  get_focus_base input.owner_focus_id
  id ← transaction (create_goal_rows input)
  get_goal 0 id

-- The assignments of UpdateGoal, and the row that it writes.
abbrev pub updated_goal_row : UpdateGoal → Time → Goal → FocusGoalRow
updated_goal_row input at current = record {
  id = current.id;
  focus_object_id = current.owner_focus_id;
  goal_type = or_keep input.goal_type current.goal_type;
  description = or_keep input.description current.description;
  status_override = nullable input.status_override current.status_override;
  created_at = 0;
  updated_at = at;
  finished_at = current.finished_at;
}

unfoldable pub replace_links : Uuid → Option (List Uuid) → Action (Unit {0})
replace_links goal none = pure tt
replace_links goal (some foci) = do statement as_it_is (delete_links goal); link_all goal foci

-- The statements of the transaction of UpdateGoal.
unfoldable pub update_goal_rows : UpdateGoal → Goal → Action Uuid
update_goal_rows input current = do
  at ← now
  row ← statement map_not_found (update_goal_row (updated_goal_row input at current))
  replace_links row.id input.linked_focus_ids
  insert_event none (some row.id) "goal.updated"
  pure row.id

unfoldable pub update_goal : Uuid → UpdateGoal → Action Goal
update_goal user input = do
  current ← get_goal 0 input.id
  id ← transaction (update_goal_rows input current)
  get_goal 0 id

-- `if command.RowsAffected() == 0 { return storage.ErrNotFound }`
abbrev pub check_affected : ℕ → Action (Unit {0})
check_affected n = if n == 0 then raise not_found else pure tt

unfoldable pub delete_goal : Uuid → Uuid → Action (Unit {0})
delete_goal user id = do
  get_goal 0 id
  insert_event none (some id) "goal.deleted"
  affected ← statement as_it_is (delete_goal_row id)
  check_affected affected

unfoldable pub link_goal_focus : Uuid → GoalFocusLink → Action Goal
link_goal_focus user link = do
  get_focus_base link.focus_id
  get_goal 0 link.goal_id
  statement as_it_is (insert_link link.goal_id link.focus_id)
  insert_event none (some link.goal_id) "goal.link_added"
  get_goal 0 link.goal_id

-- UnlinkGoalFocus looks for the goal if no row was affected.
unfoldable pub check_unlinked : ℕ → Uuid → Action (Unit {0})
check_unlinked affected goal = if affected == 0 then (do get_goal 0 goal; pure tt) else pure tt

unfoldable pub unlink_goal_focus : Uuid → GoalFocusLink → Action Goal
unlink_goal_focus user link = do
  affected ← statement as_it_is (delete_link link.goal_id link.focus_id)
  check_unlinked affected link.goal_id
  insert_event none (some link.goal_id) "goal.link_removed"
  get_goal 0 link.goal_id

module _ (id_string : Uuid → String) (parse : String → Option Uuid) where
  unfoldable pub list_focus_goals : Uuid → Uuid → PageRequest → Action (Page Goal)
  list_focus_goals user focus page = do
    get_focus_base focus
    rows ←
        statement as_it_is
          (select_goals focus (cursor_uuid parse page.cursor) (page_limit page + 1))
    items ← scan_goal_rows rows
    pure (page_from_items (λ goal. goal.id) id_string items (page_limit page))
