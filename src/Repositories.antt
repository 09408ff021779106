-- ===== src/Repositories.antt =====
-- backend/internal/storage/repositories.go: what the services rely on of a store. A method takes
-- the state of the store and gives its result and the state that it leaves.
pub mod Leads
use focus_flow.Storage.{Outcome}
use focus_flow.Model.{
  Uuid, Focus, Goal, FocusQuery, CreateFocus, UpdateFocus, CreateGoal, UpdateGoal, GoalFocusLink,
  Page, PageRequest,
}

abbrev pub Stateful : Type 0 → Type 0 → Type 0
Stateful S A = S → Outcome A × S

pub record FocusStore (S : Type 0) : Type 0 where
  pub list_flows : Uuid → PageRequest → FocusQuery → Stateful S (Page Focus)
  pub create_flow : Uuid → CreateFocus → Stateful S Focus
  pub create_focus : Uuid → CreateFocus → Stateful S Focus
  pub get_focus : Uuid → FocusQuery → Stateful S Focus
  pub update_focus : Uuid → UpdateFocus → Stateful S Focus
  pub delete_focus : Uuid → Uuid → Stateful S (Unit {0})
  pub list_focus_children : Uuid → Uuid → PageRequest → FocusQuery → Stateful S (Page Focus)

pub record GoalStore (S : Type 0) : Type 0 where
  pub list_focus_goals : Uuid → Uuid → PageRequest → Stateful S (Page Goal)
  pub create_goal : Uuid → CreateGoal → Stateful S Goal
  pub get_goal : Uuid → Uuid → Stateful S Goal
  pub update_goal : Uuid → UpdateGoal → Stateful S Goal
  pub delete_goal : Uuid → Uuid → Stateful S (Unit {0})
  pub link_goal_focus : Uuid → GoalFocusLink → Stateful S Goal
  pub unlink_goal_focus : Uuid → GoalFocusLink → Stateful S Goal
