-- ===== src/Service.antt =====
-- backend/internal/service/service.go: FocusService and GoalService, over any store.
use focus_flow.Common.{none}
use focus_flow.Model.{
  Uuid, nil_id, Focus, Goal, FocusQuery, CreateFocus, UpdateFocus, CreateGoal, UpdateGoal,
  GoalFocusLink, Page, PageRequest,
}
use focus_flow.Repositories.{Stateful, FocusStore, GoalStore}

module _ {S : Type 0} (store : FocusStore S) where
  abbrev pub list_flows : Uuid → PageRequest → FocusQuery → Stateful S (Page Focus)
  list_flows user page query = store.list_flows user page (record query { id = nil_id })

  abbrev pub create_flow : Uuid → CreateFocus → Stateful S Focus
  create_flow user input = store.create_flow user (record input { parent_id = none })

  abbrev pub create_focus : Uuid → CreateFocus → Stateful S Focus
  create_focus user input = store.create_focus user input

  abbrev pub get_focus : Uuid → FocusQuery → Stateful S Focus
  get_focus user query = store.get_focus user query

  abbrev pub update_focus : Uuid → UpdateFocus → Stateful S Focus
  update_focus user input = store.update_focus user input

  abbrev pub delete_focus : Uuid → Uuid → Stateful S (Unit {0})
  delete_focus user id = store.delete_focus user id

  abbrev pub list_focus_children : Uuid → Uuid → PageRequest → FocusQuery → Stateful S (Page Focus)
  list_focus_children user parent page query = store.list_focus_children user parent page query

module _ {S : Type 0} (store : GoalStore S) where
  abbrev pub list_focus_goals : Uuid → Uuid → PageRequest → Stateful S (Page Goal)
  list_focus_goals user focus page = store.list_focus_goals user focus page

  abbrev pub create_goal : Uuid → CreateGoal → Stateful S Goal
  create_goal user input = store.create_goal user input

  abbrev pub get_goal : Uuid → Uuid → Stateful S Goal
  get_goal user id = store.get_goal user id

  abbrev pub update_goal : Uuid → UpdateGoal → Stateful S Goal
  update_goal user input = store.update_goal user input

  abbrev pub delete_goal : Uuid → Uuid → Stateful S (Unit {0})
  delete_goal user id = store.delete_goal user id

  abbrev pub link_goal_focus : Uuid → GoalFocusLink → Stateful S Goal
  link_goal_focus user link = store.link_goal_focus user link

  abbrev pub unlink_goal_focus : Uuid → GoalFocusLink → Stateful S Goal
  unlink_goal_focus user link = store.unlink_goal_focus user link
