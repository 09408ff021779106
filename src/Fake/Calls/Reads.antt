-- ===== src/Fake/Calls/Reads.antt =====
-- The calls that only read, and the calls that fail.
use focus_flow.Common.{◌≡◌, refl, String, arith}
use focus_flow.Storage.{Outcome, Error, ok, err, overflow}
use focus_flow.Model.{Uuid}
use focus_flow.Fake.State.{Store, Env}
use focus_flow.Fake.Focuses
use focus_flow.Fake.Goals
use focus_flow.Fake.Calls.{
  Call, list_flows, get_focus, list_focus_children, list_focus_goals, get_goal, forget, run,
}

pub forget-store {ℓ} : {A : Type ℓ} (r : Outcome A × Store) → (forget r).1 ≡ r.1
forget-store (ok a, store) = refl
forget-store (err e, store) = refl
forget-store (overflow, store) = refl

abbrev pub IsRead : Call → Type 0
IsRead (list_flows page query) = Unit
IsRead (get_focus query) = Unit
IsRead (list_focus_children parent page query) = Unit
IsRead (list_focus_goals focus page) = Unit
IsRead (get_goal id) = Unit
IsRead _ = ⊥

module _ (id_string : Uuid → String) (user : Uuid) where
  pub run_read :
      (env : Env) (call : Call) (store : Store)
      → IsRead call
      → (run id_string user env call store).1 ≡ store
  unfolding run Focuses.list_flows Focuses.get_focus Focuses.list_focus_children
      Goals.list_focus_goals Goals.get_goal
  run_read env (list_flows page query) store h = refl
  run_read env (get_focus query) store h = ground arith
  run_read env (list_focus_children parent page query) store h = ground arith
  run_read env (list_focus_goals focus page) store h = ground arith
  run_read env (get_goal id) store h = ground arith
  run_read env call store h = elim h [ ]

  -- A call of the store that returns an error leaves the store as it was.
  pub run_failed :
      (env : Env) (call : Call) (store : Store) (e : Error)
      → (run id_string user env call store).0 ≡ err e
      → (run id_string user env call store).1 ≡ store
  unfolding run Focuses.create_flow Focuses.create_focus Focuses.update_focus Focuses.delete_focus
      Goals.create_goal Goals.update_goal Goals.delete_goal Goals.link_goal_focus
      Goals.unlink_goal_focus
  run_failed env (list_flows page query) store e h = run_read env (list_flows page query) store tt
  run_failed env (get_focus query) store e h = run_read env (get_focus query) store tt
  run_failed env (list_focus_children p page query) store e h =
      run_read env (list_focus_children p page query) store tt
  run_failed env (list_focus_goals f page) store e h =
      run_read env (list_focus_goals f page) store tt
  run_failed env (get_goal id) store e h = run_read env (get_goal id) store tt
  run_failed env call store e h = ground arith
