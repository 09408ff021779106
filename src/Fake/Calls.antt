-- ===== src/Fake/Calls.antt =====
-- Histories of the store in memory: whole calls, one after the other, as the mutex orders them.
pub mod Reads
pub mod History
pub mod Errors
pub mod Promise
use focus_flow.Common.{ℕ, ◌≡◌, String, Option, none, some, List, Map, lookup}
use focus_flow.Storage.{Outcome, ok, err, overflow}
use focus_flow.Model.{
  Uuid, FocusQuery, CreateFocus, UpdateFocus, CreateGoal, UpdateGoal, GoalFocusLink, PageRequest,
}
use focus_flow.Fake.State.{Store, Env}
use focus_flow.Fake.Focuses
use focus_flow.Fake.Goals
use focus_flow.Fake.Valid.{seed}

-- The methods of `storage.FocusStore` and `storage.GoalStore`, with their arguments.
pub data Call : Type 0 where
  list_flows : PageRequest → FocusQuery → Call
  create_flow create_focus : CreateFocus → Call
  get_focus : FocusQuery → Call
  update_focus : UpdateFocus → Call
  delete_focus : Uuid → Call
  list_focus_children : Uuid → PageRequest → FocusQuery → Call
  list_focus_goals : Uuid → PageRequest → Call
  create_goal : CreateGoal → Call
  get_goal : Uuid → Call
  update_goal : UpdateGoal → Call
  delete_goal : Uuid → Call
  link_goal_focus unlink_goal_focus : GoalFocusLink → Call

-- The outcome of a call without the value that it returns.
abbrev pub forget {ℓ} : {A : Type ℓ} → Outcome A × Store → Outcome (Unit {0}) × Store
forget (ok a, store) = (ok tt, store)
forget (err e, store) = (err e, store)
forget (overflow, store) = (overflow, store)

module _ (id_string : Uuid → String) (user : Uuid) where
  unfoldable pub run : Env → Call → Store → Outcome (Unit {0}) × Store
  run env (list_flows page query) store =
      forget (Focuses.list_flows id_string user page query env store)
  run env (create_flow input) store = forget (Focuses.create_flow user input env store)
  run env (create_focus input) store = forget (Focuses.create_focus user input env store)
  run env (get_focus query) store = forget (Focuses.get_focus id_string user query env store)
  run env (update_focus input) store = forget (Focuses.update_focus user input env store)
  run env (delete_focus id) store = forget (Focuses.delete_focus user id env store)
  run env (list_focus_children parent page query) store =
      forget (Focuses.list_focus_children id_string user parent page query env store)
  run env (list_focus_goals focus page) store =
      forget (Goals.list_focus_goals id_string user focus page env store)
  run env (create_goal input) store = forget (Goals.create_goal user input env store)
  run env (get_goal id) store = forget (Goals.get_goal user id env store)
  run env (update_goal input) store = forget (Goals.update_goal user input env store)
  run env (delete_goal id) store = forget (Goals.delete_goal user id env store)
  run env (link_goal_focus link) store = forget (Goals.link_goal_focus user link env store)
  run env (unlink_goal_focus link) store = forget (Goals.unlink_goal_focus user link env store)

  -- The stores that a history leads to from the one that `New` makes. `newID` draws an identifier
  -- that no focus has.
  pub data Reach : Store → Type 0 where
    start : Reach seed
    next :
        {store : Store}
        → Reach store
        → (env : Env) (call : Call) → lookup env.new_id store.focuses ≡ none
        → Reach (run env call store).1
