-- ===== src/Fake/Repositories.antt =====
-- The store in memory as `storage.FocusStore` and `storage.GoalStore`.
use focus_flow.Common.{String}
use focus_flow.Model.{Uuid}
use focus_flow.Repositories.{FocusStore, GoalStore}
use focus_flow.Fake.State.{Store, Env}
use focus_flow.Fake.Focuses
use focus_flow.Fake.Goals

module _ (id_string : Uuid → String) (env : Env) where
  abbrev pub focus_store : FocusStore Store
  focus_store = record {
    list_flows = λ user page query. Focuses.list_flows id_string user page query env;
    create_flow = λ user input. Focuses.create_flow user input env;
    create_focus = λ user input. Focuses.create_focus user input env;
    get_focus = λ user query. Focuses.get_focus id_string user query env;
    update_focus = λ user input. Focuses.update_focus user input env;
    delete_focus = λ user id. Focuses.delete_focus user id env;
    list_focus_children =
        λ user parent page query. Focuses.list_focus_children id_string user parent page query env;
  }

  abbrev pub goal_store : GoalStore Store
  goal_store = record {
    list_focus_goals = λ user focus page. Goals.list_focus_goals id_string user focus page env;
    create_goal = λ user input. Goals.create_goal user input env;
    get_goal = λ user id. Goals.get_goal user id env;
    update_goal = λ user input. Goals.update_goal user input env;
    delete_goal = λ user id. Goals.delete_goal user id env;
    link_goal_focus = λ user link. Goals.link_goal_focus user link env;
    unlink_goal_focus = λ user link. Goals.unlink_goal_focus user link env;
  }
