-- ===== src/Postgres/Calls.antt =====
-- Histories of the PostgreSQL store: calls of its methods, one after the other, from the tables that
-- the migration makes.
pub mod History
pub mod Runs
pub mod Moves
pub mod Deletions
pub mod Promise
pub mod Agree
use focus_flow.Common.{ℕ, String, Option, []}
use focus_flow.Model.{Uuid}
use focus_flow.Postgres.Sql.{Tables, Outside, Db, Action, pure, ◌>>=◌, ◌>>◌}
use focus_flow.Postgres.FocusStore
use focus_flow.Postgres.GoalStore
use focus_flow.Fake.Calls.{
  Call, list_flows, create_flow, create_focus, get_focus, update_focus, delete_focus,
  list_focus_children, list_focus_goals, create_goal, get_goal, update_goal, delete_goal,
  link_goal_focus, unlink_goal_focus,
}

-- A call without the value that it returns.
unfoldable pub forget : {A : Type 0} → Action A → Action (Unit {0})
forget m = do m; pure tt

-- The tables that the migration makes.
abbrev pub no_rows_yet : Tables
no_rows_yet = record {
  focus_object = [];
  focus_goal = [];
  focus_goal_link = [];
  focus_specification = [];
  focus_event = [];
}

module _ (id_string : Uuid → String) (parse : String → Option Uuid) (user : Uuid) where
  unfoldable pub run : Call → Action (Unit {0})
  run (list_flows page query) = forget (FocusStore.list_flows id_string parse user page query)
  run (create_flow input) = forget (FocusStore.create_flow user input)
  run (create_focus input) = forget (FocusStore.create_focus user input)
  run (get_focus query) = forget (FocusStore.get_focus id_string parse user query)
  run (update_focus input) = forget (FocusStore.update_focus user input)
  run (delete_focus id) = forget (FocusStore.delete_focus user id)
  run (list_focus_children parent page query) =
      forget (FocusStore.list_focus_children id_string parse user parent page query)
  run (list_focus_goals focus page) =
      forget (GoalStore.list_focus_goals id_string parse user focus page)
  run (create_goal input) = forget (GoalStore.create_goal user input)
  run (get_goal id) = forget (GoalStore.get_goal user id)
  run (update_goal input) = forget (GoalStore.update_goal user input)
  run (delete_goal id) = forget (GoalStore.delete_goal user id)
  run (link_goal_focus link) = forget (GoalStore.link_goal_focus user link)
  run (unlink_goal_focus link) = forget (GoalStore.unlink_goal_focus user link)

  -- The tables that a history leads to, with any identifiers, times and faults at each call.
  pub data Reach : Tables → Type 0 where
    start : Reach no_rows_yet
    next :
        {tables : Tables}
        → Reach tables
        → (outside : Outside) (call : Call)
        → Reach (run call (record { tables = tables; ticks = 0; outside = outside })).1.tables
