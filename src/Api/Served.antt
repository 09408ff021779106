-- ===== src/Api/Served.antt =====
-- The protected operations of the API, on any pair of stores.
pub mod Answers
pub mod Missing
pub mod Leads
pub mod Valid
pub mod Sound
use focus_flow.Common.{
  ℕ, ◌≡◌, refl, inl, inr, String, Option, none, some, arith, lookup, Option-cases,
}
use focus_flow.Storage.{Outcome, Error, ok, err, overflow, not_found, invalid_hierarchy, other}
use focus_flow.Model
use focus_flow.Model.Int.{ℤ}
use focus_flow.Repositories.{FocusStore, GoalStore}
use focus_flow.Api.Wire
use focus_flow.Api.Mappers
use focus_flow.Api.User
use focus_flow.Api.User.{Reply, success, problem, failed, endless, unauthorized}

-- The protected operations that a store answers, with what the router reads of the request.
pub data Request : Type 0 where
  list_flows : Option ℤ → Option String → Option String → Option ℤ → Request
  create_flow : Wire.CreateFlowRequest → Request
  create_focus : Wire.CreateFocusRequest → Request
  delete_focus : Model.Uuid → Request
  get_focus : Model.Uuid → Option String → Option ℤ → Request
  update_focus : Model.Uuid → Wire.UpdateFocusRequest → Request
  list_focus_children : Model.Uuid → Option ℤ → Option String → Option String → Option ℤ → Request
  list_focus_goals : Model.Uuid → Option ℤ → Option String → Request
  create_goal : Model.Uuid → Wire.CreateGoalRequest → Request
  delete_goal get_goal : Model.Uuid → Request
  update_goal : Model.Uuid → Wire.UpdateGoalRequest → Request
  link_goal_focus : Model.Uuid → Wire.LinkGoalFocusRequest → Request
  unlink_goal_focus : Model.Uuid → Model.Uuid → Request

-- The reply without its body.
abbrev pub without_body : {S A : Type 0} → Reply A × S → Reply (Unit {0}) × S
without_body (success status body, store) = (success status tt, store)
without_body (problem status body, store) = (problem status body, store)
without_body (failed e, store) = (failed e, store)
without_body (endless, store) = (endless, store)

module _ {S : Type 0} (focuses : FocusStore S) (goals : GoalStore S) where
  unfoldable pub serve : Option Model.Uuid → Request → S → Reply (Unit {0}) × S
  serve user (list_flows limit cursor include depth) store =
      without_body (User.list_flows focuses user limit cursor include depth store)
  serve user (create_flow body) store = without_body (User.create_flow focuses user body store)
  serve user (create_focus body) store = without_body (User.create_focus focuses user body store)
  serve user (delete_focus focus) store = without_body (User.delete_focus focuses user focus store)
  serve user (get_focus focus include depth) store =
      without_body (User.get_focus focuses user focus include depth store)
  serve user (update_focus focus body) store =
      without_body (User.update_focus focuses user focus body store)
  serve user (list_focus_children focus limit cursor include depth) store =
      without_body (User.list_focus_children focuses user focus limit cursor include depth store)
  serve user (list_focus_goals focus limit cursor) store =
      without_body (User.list_focus_goals goals user focus limit cursor store)
  serve user (create_goal focus body) store =
      without_body (User.create_goal goals user focus body store)
  serve user (delete_goal goal) store = without_body (User.delete_goal goals user goal store)
  serve user (get_goal goal) store = without_body (User.get_goal goals user goal store)
  serve user (update_goal goal body) store =
      without_body (User.update_goal goals user goal body store)
  serve user (link_goal_focus goal body) store =
      without_body (User.link_goal_focus goals user goal body store)
  serve user (unlink_goal_focus goal focus) store =
      without_body (User.unlink_goal_focus goals user goal focus store)
