-- ===== src/Postgres.antt =====
-- backend/internal/storage/postgres: the pages of helpers.go, with the statements that select their
-- rows, and the conversions of mappers.go.
--
-- A table is a list of rows. `select_after` is what the condition on the cursor, ORDER BY id and
-- LIMIT of the listing statements of focus_store.go and goal_store.go select. `uuid.Parse` and
-- `uuid.UUID.String` are parameters.
pub mod Walk
pub mod Pages
pub mod Listings
pub mod Rows
pub mod Sql
pub mod Descent
pub mod Schema
pub mod Statements
pub mod GoalStatements
pub mod GoalStore
pub mod FocusStore
pub mod Sound
pub mod Repositories
pub mod Calls
use focus_flow.Common.{
  ℕ, ◌+◌, ltb, ◌==◌, ◌||◌, if◌then◌else◌, String, Bool, true, false, Option, none, some, List, [],
  ◌∷◌, ◌++◌, length, take, get_last?, keep_if, sort_slice, by_key, is_empty, str_eq, is_some, not,
}
use focus_flow.Model.{
  Uuid, Time, FocusStatus, done, cancelled, FocusFields, Focus, fields, Page, PageRequest,
}
use focus_flow.Model.Int.{ℤ, pos, negsuc}

pub record FocusObjectRow : Type 0 where
  pub id : Uuid
  pub parent_id : Option Uuid
  pub name : String
  pub status : String
  pub tags : List String
  pub description : Option String
  pub feedback : Option String
  pub color : Option String
  pub created_at : Time
  pub updated_at : Time
  pub finished_at : Option Time

-- focusFromRow
abbrev pub focus_from_row : FocusObjectRow → FocusFields
focus_from_row row = record {
  id = row.id;
  parent_id = row.parent_id;
  name = row.name;
  status = row.status;
  tags = [] ++ row.tags;
  description = row.description;
  feedback = row.feedback;
  color = row.color;
  goals = [];
  specifications = [];
  created_at = row.created_at;
  updated_at = row.updated_at;
  finished_at = row.finished_at;
}

unfoldable pub finished_at_for_status : FocusStatus → Time → Option Time
finished_at_for_status status now =
    if str_eq status done || str_eq status cancelled then some now else none

unfoldable pub page_limit : PageRequest → ℕ
page_limit request = elim request.limit [
  | pos n ↦ if n == 0 || ltb 100 n then 50 else n
  | negsuc n ↦ 50
]

abbrev pub cursor_uuid : (String → Option Uuid) → Option String → Option Uuid
cursor_uuid parse none = none
cursor_uuid parse (some cursor) = if is_empty cursor then none else parse cursor

module _ {T : Type 0} (key : T → Uuid) where
  -- `$1::uuid IS NULL OR id > $1`
  abbrev pub is_after : Option Uuid → T → Bool
  is_after none row = true
  is_after (some id) row = ltb id (key row)

  -- The rows in the order of their identifiers that the condition selects, at most so many.
  abbrev pub select_after : Option Uuid → ℕ → List T → List T
  select_after after limit rows =
      take limit (keep_if (is_after after) (sort_slice (by_key key) rows))

  module _ (id_string : Uuid → String) where
    -- `page.Items[len(page.Items)-1].ID.String()`
    abbrev pub last_id : Option T → Option String
    last_id none = none
    last_id (some row) = some (id_string (key row))

    -- focusPageFromItems and goalPageFromItems
    abbrev pub page_from_items : List T → ℕ → Page T
    page_from_items items limit =
        if ltb limit (length items)
        then record {
          items = take limit items;
          count = length (take limit items);
          next_cursor = last_id (get_last? (take limit items));
          has_more = true;
        }
        else record { items = items; count = length items; next_cursor = none; has_more = false }
