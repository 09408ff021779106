-- ===== src/Postgres/GoalStore/Reads.antt =====
-- The reads of goal_store.go, and the inserts of events, keep every property of the tables that is
-- not about events.
use focus_flow.Common.{String, Option}
use focus_flow.Model.{Uuid, Goal, PageRequest}
use focus_flow.Postgres.Sql.{Tables}
use focus_flow.Postgres.Sql.Keeps.{keeps_rules, Keeps}
use focus_flow.Postgres.Statements.{select_focus, select_specifications}
use focus_flow.Postgres.GoalStatements.{select_goal, select_goals, select_linked}
use focus_flow.Postgres.GoalStore.{
  get_focus_base, goal_aggregate, list_specifications, scan_goal_rows, get_goal, list_focus_goals,
}

module _ {P : Tables → Type 0} where
  pub get_focus_base-Keeps : (id : Uuid) → Keeps P (get_focus_base id)
  unfolding get_focus_base select_focus
  get_focus_base-Keeps id = search keeps_rules

  pub goal_aggregate-Keeps : (goal : Goal) → Keeps P (goal_aggregate goal)
  unfolding goal_aggregate select_linked
  goal_aggregate-Keeps goal = search keeps_rules

  pub get_goal-Keeps : (user id : Uuid) → Keeps P (get_goal user id)
  unfolding get_goal select_goal
  get_goal-Keeps user id = search (keeps_rules, goal_aggregate-Keeps)

  pub list_specifications-Keeps : (focus : Uuid) → Keeps P (list_specifications focus)
  unfolding list_specifications select_specifications
  list_specifications-Keeps focus = search keeps_rules

  pub list_focus_goals-Keeps :
      (id_string : Uuid → String) (parse : String → Option Uuid) (user focus : Uuid)
      (page : PageRequest)
      → Keeps P (list_focus_goals id_string parse user focus page)
  unfolding list_focus_goals select_goals scan_goal_rows
  list_focus_goals-Keeps id_string parse user focus page =
      search (keeps_rules, get_focus_base-Keeps, goal_aggregate-Keeps) depth 12
