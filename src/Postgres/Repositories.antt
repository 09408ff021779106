-- ===== src/Postgres/Repositories.antt =====
-- The PostgreSQL store as `storage.FocusStore` and `storage.GoalStore`.
use focus_flow.Common.{String, Option}
use focus_flow.Model.{Uuid}
use focus_flow.Repositories
use focus_flow.Postgres.Sql.{Db}
use focus_flow.Postgres.FocusStore
use focus_flow.Postgres.GoalStore

module _ (id_string : Uuid → String) (parse : String → Option Uuid) where
  abbrev pub focus_store : Repositories.FocusStore Db
  focus_store = record {
    list_flows = FocusStore.list_flows id_string parse;
    create_flow = FocusStore.create_flow;
    create_focus = FocusStore.create_focus;
    get_focus = FocusStore.get_focus id_string parse;
    update_focus = FocusStore.update_focus;
    delete_focus = FocusStore.delete_focus;
    list_focus_children = FocusStore.list_focus_children id_string parse;
  }

  abbrev pub goal_store : Repositories.GoalStore Db
  goal_store = record {
    list_focus_goals = GoalStore.list_focus_goals id_string parse;
    create_goal = GoalStore.create_goal;
    get_goal = GoalStore.get_goal;
    update_goal = GoalStore.update_goal;
    delete_goal = GoalStore.delete_goal;
    link_goal_focus = GoalStore.link_goal_focus;
    unlink_goal_focus = GoalStore.unlink_goal_focus;
  }
