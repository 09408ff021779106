-- ===== src/Postgres/FocusStore.antt =====
-- backend/internal/storage/postgres/focus_store.go: the methods of `storage.FocusStore`. The
-- identifier of the user, which the store does not read, is their first argument.
pub mod Reads
pub mod Move
pub mod Verdict
pub mod Race
use focus_flow.Common.{
  ℕ, zero, suc, ◌+◌, String, Bool, true, false, Option, none, some, List, [], ◌∷◌, ◌++◌, map, ◌==◌,
  if◌then◌else◌, or_keep,
}
use focus_flow.Storage.{invalid_hierarchy}
use focus_flow.Model.{
  Uuid, Time, FocusStatus, planned, FocusFields, Focus, node, nil, to_foci, fields, Goal,
  Specification, FocusQuery, CreateFocus, UpdateFocus, NullableUpdate, Page, PageRequest,
}
use focus_flow.Model.Int.{pos, rounds}
use focus_flow.Fake.Focuses.{nullable}
use focus_flow.Postgres.{
  FocusObjectRow, focus_from_row, finished_at_for_status, page_limit, cursor_uuid, page_from_items,
}
use focus_flow.Postgres.Rows.{row_of_focus}
use focus_flow.Postgres.Sql.{
  Action, pure, raise, statement, ◌>>=◌, ◌>>◌, new_id, now, each, map_not_found, as_it_is,
}
use focus_flow.Postgres.Statements.{
  select_flows, select_children, insert_focus, update_focus_row, delete_focus_row, select_below,
}
use focus_flow.Postgres.GoalStore.{
  get_focus_base, insert_event, list_specifications, list_focus_goals, check_affected,
}

abbrev pub created_row : Uuid → Time → CreateFocus → FocusObjectRow
created_row id at input =
    let status = or_keep input.status planned in
    record {
      id = id;
      parent_id = input.parent_id;
      name = input.name;
      status = status;
      tags = [] ++ input.tags;
      description = input.description;
      feedback = input.feedback;
      color = input.color;
      created_at = at;
      updated_at = at;
      finished_at = finished_at_for_status status at;
    }

unfoldable pub create_focus : Uuid → CreateFocus → Action Focus
create_focus user input = do
  id ← new_id
  at ← now
  row ← statement map_not_found (insert_focus (created_row id at input))
  insert_event (some row.id) none "focus.created"
  pure (node (focus_from_row row) nil)

unfoldable pub create_flow : Uuid → CreateFocus → Action Focus
create_flow user input = create_focus user (record input { parent_id = none })

abbrev pub refuse_if : Bool → Action (Unit {0})
refuse_if found = if found then raise invalid_hierarchy else pure tt

-- ensureCanMoveFocus, behind its first test.
unfoldable pub ensure_not_below : Uuid → Uuid → Action (Unit {0})
ensure_not_below id parent = do
  found ← statement as_it_is (select_below id parent)
  refuse_if found
  get_focus_base parent
  pure tt

unfoldable pub ensure_can_move_focus : Uuid → Uuid → Action (Unit {0})
ensure_can_move_focus id parent =
    if id == parent then raise invalid_hierarchy else ensure_not_below id parent

abbrev pub check_new_parent : Uuid → Option Uuid → Action (Unit {0})
check_new_parent id none = pure tt
check_new_parent id (some parent) = ensure_can_move_focus id parent

-- The checks of UpdateFocus on a new parent.
unfoldable pub check_parent : UpdateFocus → Action (Unit {0})
check_parent input =
    if input.parent_id.set then check_new_parent input.id input.parent_id.value else pure tt

-- `FinishedAt` after the assignment of the status.
unfoldable pub new_finished_at : Option FocusStatus → Option Time → Action (Option Time)
new_finished_at none old = pure old
new_finished_at (some status) old = do at ← now; pure (finished_at_for_status status at)

-- The assignments of UpdateFocus.
abbrev pub updated_focus : UpdateFocus → Option Time → Time → FocusFields → FocusFields
updated_focus input finished at current = record current {
  parent_id = nullable input.parent_id current.parent_id;
  name = or_keep input.name current.name;
  status = or_keep input.status current.status;
  tags = or_keep input.tags current.tags;
  description = nullable input.description current.description;
  feedback = nullable input.feedback current.feedback;
  color = nullable input.color current.color;
  updated_at = at;
  finished_at = finished;
}

-- What UpdateFocus does behind its checks.
unfoldable pub save_focus : UpdateFocus → FocusFields → Action Focus
save_focus input current = do
  finished ← new_finished_at input.status current.finished_at
  at ← now
  row ←
      statement map_not_found
        (update_focus_row (row_of_focus (updated_focus input finished at current)))
  insert_event (some row.id) none "focus.updated"
  pure (node (focus_from_row row) nil)

unfoldable pub update_focus : Uuid → UpdateFocus → Action Focus
update_focus user input = do
  current ← get_focus_base input.id
  check_parent input
  save_focus input current

unfoldable pub delete_focus : Uuid → Uuid → Action (Unit {0})
delete_focus user id = do
  get_focus_base id
  insert_event (some id) none "focus.deleted"
  affected ← statement as_it_is (delete_focus_row id)
  check_affected affected

-- `core.PageRequest{Limit: 100}`
abbrev pub first_hundred : PageRequest
first_hundred = record { limit = pos 100; cursor = none }

module _ (id_string : Uuid → String) (parse : String → Option Uuid) where
  unfoldable pub attach_goals : Bool → FocusFields → Action FocusFields
  attach_goals false focus = pure focus
  attach_goals true focus = do
    goals ← list_focus_goals id_string parse 0 focus.id first_hundred
    pure (record focus { goals = goals.items })

  unfoldable pub attach_specifications : Bool → FocusFields → Action FocusFields
  attach_specifications false focus = pure focus
  attach_specifications true focus = do
    specs ← list_specifications focus.id
    pure (record focus { specifications = specs })

  unfoldable pub attach_own : Bool → Bool → FocusFields → Action FocusFields
  attach_own goals specs focus = do
    with_goals ← attach_goals goals focus
    attach_specifications specs with_goals

  abbrev page_of : List Focus → PageRequest → Page Focus
  page_of items page =
      page_from_items (λ focus. (fields focus).id) id_string items (page_limit page)

  -- ListFocusChildren, over the aggregates that it attaches.
  unfoldable pub children_page :
      (FocusFields → Action Focus) → Uuid → PageRequest → Action (Page Focus)
  children_page attach parent page = do
    get_focus_base parent
    rows ←
        statement as_it_is
          (select_children parent (cursor_uuid parse page.cursor) (page_limit page + 1))
    items ← each attach (map focus_from_row rows)
    pure (page_of items page)

  -- attachFocusAggregate; its depth is at most 0 if it is `zero`.
  unfoldable pub attach_focus_aggregate : Bool → Bool → ℕ → FocusFields → Action Focus
  attach_focus_aggregate goals specs zero focus = do
    own ← attach_own goals specs focus
    pure (node own nil)
  attach_focus_aggregate goals specs (suc depth) focus = do
    own ← attach_own goals specs focus
    children ← children_page (attach_focus_aggregate goals specs depth) own.id first_hundred
    pure (node own (to_foci children.items))

  abbrev attach : FocusQuery → FocusFields → Action Focus
  attach query =
      attach_focus_aggregate query.include_goals query.include_specs (rounds query.descendant_depth)

  unfoldable pub get_focus : Uuid → FocusQuery → Action Focus
  get_focus user query = do focus ← get_focus_base query.id; attach query focus

  unfoldable pub list_flows : Uuid → PageRequest → FocusQuery → Action (Page Focus)
  list_flows user page query = do
    rows ← statement as_it_is (select_flows (cursor_uuid parse page.cursor) (page_limit page + 1))
    items ← each (attach query) (map focus_from_row rows)
    pure (page_of items page)

  unfoldable pub list_focus_children : Uuid → Uuid → PageRequest → FocusQuery → Action (Page Focus)
  list_focus_children user parent page query = children_page (attach query) parent page
