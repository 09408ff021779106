-- ===== src/Postgres/Calls/History.antt =====
-- What holds of the tables of the PostgreSQL store behind every history.
use focus_flow.Common.{String, Option, none}
use focus_flow.Model.{Uuid}
use focus_flow.Postgres.Sql.{Tables, Action}
use focus_flow.Postgres.Sql.Keeps.{Keeps, Keeps-pure, Keeps-bind, Keeps-tables}
use focus_flow.Postgres.FocusStore
use focus_flow.Postgres.GoalStore.Reads.{get_goal-Keeps, list_focus_goals-Keeps}
use focus_flow.Postgres.FocusStore.Reads.{
  get_focus-Keeps, list_flows-Keeps, list_focus_children-Keeps,
}
use focus_flow.Postgres.Sound.{IsSound}
use focus_flow.Postgres.Sound.Focuses.{create_focus-Keeps}
use focus_flow.Postgres.Sound.Update.{update_focus-Keeps}
use focus_flow.Postgres.Sound.Delete.{delete_focus-Keeps}
use focus_flow.Postgres.Sound.Goals.{
  create_goal-Keeps, update_goal-Keeps, delete_goal-Keeps, link_goal_focus-Keeps,
  unlink_goal_focus-Keeps,
}
use focus_flow.Fake.Calls.{
  Call, list_flows, create_flow, create_focus, get_focus, update_focus, delete_focus,
  list_focus_children, list_focus_goals, create_goal, get_goal, update_goal, delete_goal,
  link_goal_focus, unlink_goal_focus,
}
use focus_flow.Postgres.Calls.{forget, no_rows_yet, run, Reach, start, next}

forget-Keeps : {P : Tables → Type 0} {A : Type 0} (m : Action A) → Keeps P m → Keeps P (forget m)
unfolding forget
forget-Keeps m h = Keeps-bind m _ h λ _. Keeps-pure tt

no_rows_yet-IsSound : IsSound no_rows_yet
no_rows_yet-IsSound = record {
  integral = record {
    focus_ids = λ k row h. cc;
    parents = λ k row h. cc;
    goal_ids = λ k row h. cc;
    owners = λ k row h. cc;
    links = tt;
    specifications = λ k row h. cc;
    event_foci = λ k row h. cc;
    event_goals = λ k row h. cc;
  };
  forest = λ x q h. cc;
  finished = λ k row h. cc;
  focus_checked = λ k row h. cc;
  goal_checked = λ k row h. cc;
}

module _ (id_string : Uuid → String) (parse : String → Option Uuid) (user : Uuid) where
  run-Keeps : (call : Call) → Keeps IsSound (run id_string parse user call)
  unfolding run FocusStore.create_flow
  run-Keeps (list_flows page query) =
      forget-Keeps _ (list_flows-Keeps id_string parse user page query)
  run-Keeps (create_flow input) =
      forget-Keeps _ (create_focus-Keeps user (record input { parent_id = none }))
  run-Keeps (create_focus input) = forget-Keeps _ (create_focus-Keeps user input)
  run-Keeps (get_focus query) = forget-Keeps _ (get_focus-Keeps id_string parse user query)
  run-Keeps (update_focus input) = forget-Keeps _ (update_focus-Keeps user input)
  run-Keeps (delete_focus id) = forget-Keeps _ (delete_focus-Keeps user id)
  run-Keeps (list_focus_children parent page query) =
      forget-Keeps _ (list_focus_children-Keeps id_string parse user parent page query)
  run-Keeps (list_focus_goals focus page) =
      forget-Keeps _ (list_focus_goals-Keeps id_string parse user focus page)
  run-Keeps (create_goal input) = forget-Keeps _ (create_goal-Keeps user input)
  run-Keeps (get_goal id) = forget-Keeps _ (get_goal-Keeps user id)
  run-Keeps (update_goal input) = forget-Keeps _ (update_goal-Keeps user input)
  run-Keeps (delete_goal id) = forget-Keeps _ (delete_goal-Keeps user id)
  run-Keeps (link_goal_focus link) = forget-Keeps _ (link_goal_focus-Keeps user link)
  run-Keeps (unlink_goal_focus link) = forget-Keeps _ (unlink_goal_focus-Keeps user link)

  -- The tables of the PostgreSQL store behind every history of calls, one after the other, from
  -- the empty ones, whatever identifiers are drawn and whichever statements fail: rows stand
  -- under their identifiers, every foreign key refers to a row that exists, the hierarchy has no
  -- cycle, the time a focus was finished is set exactly if its status is done or cancelled, and
  -- the rows of focuses and goals pass the CHECK constraints.
  pub Reach-IsSound : (tables : Tables) → Reach id_string parse user tables → IsSound tables
  Reach-IsSound tables start = no_rows_yet-IsSound
  Reach-IsSound tables (next reached outside call) =
      Keeps-tables (run id_string parse user call) (run-Keeps call) _ (Reach-IsSound _ reached)
