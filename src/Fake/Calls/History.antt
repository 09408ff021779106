-- ===== src/Fake/Calls/History.antt =====
-- What holds of every store that a history leads to.
use focus_flow.Common.{zero, suc, ◌≡◌, refl, inl, inr, String, none, arith, lookup, eq-cases}
use focus_flow.Storage.{overflow}
use focus_flow.Forest.{root, child, IsForest}
use focus_flow.Model.{Uuid, UpdateFocus}
use focus_flow.Fake.State.{Store, Env}
use focus_flow.Fake.Focuses
use focus_flow.Fake.Goals
use focus_flow.Fake.Calls.{
  Call, list_flows, create_flow, create_focus, get_focus, update_focus, delete_focus,
  list_focus_children, list_focus_goals, create_goal, get_goal, update_goal, delete_goal,
  link_goal_focus, unlink_goal_focus, forget, run, Reach, start, next,
}
use focus_flow.Fake.Calls.Reads.{forget-store, run_read}
use focus_flow.Fake.Focuses.Update.{update_focus-cases, refused_cycle, refused_parent, saved}
use focus_flow.Fake.Focuses.Delete.{delete_focus-cases}
use focus_flow.Fake.Valid.{parents, IsValid, seed, root_id, child_id}
use focus_flow.Fake.Valid.Methods

seed-IsForest : IsForest (parents seed.focuses)
seed-IsForest x q h = elim (eq-cases x root_id) [
  | inl same ↦ (zero, root (ground arith))
  | inr other ↦ elim (eq-cases x child_id) [
    | inl same ↦ (suc zero, child root_id (ground arith) (root refl))
    | inr unknown ↦ ground arith
  ]
]

pub seed-IsValid : IsValid seed
seed-IsValid = record {
  focus_keys = (refl, (refl, tt));
  goal_keys = (refl, tt);
  focus_ids = λ k f e. ground arith;
  goal_ids = λ k g e. ground arith;
  forest = seed-IsForest;
  owners = λ k g e gone. ground arith;
}

module _ (id_string : Uuid → String) (user : Uuid) where
  -- Every call keeps the store well formed.
  pub run-IsValid :
      (env : Env) (call : Call) (store : Store)
      → IsValid store
      → lookup env.new_id store.focuses ≡ none
      → IsValid (run id_string user env call store).1
  unfolding run Focuses.create_flow
  run-IsValid env (list_flows page query) store v fresh =
      rw (run_read id_string user env (list_flows page query) store tt) v
  run-IsValid env (create_flow input) store v fresh =
      rw forget-store
        (Methods.create_focus-IsValid store v user (record input { parent_id = none }) env fresh)
  run-IsValid env (create_focus input) store v fresh =
      rw forget-store (Methods.create_focus-IsValid store v user input env fresh)
  run-IsValid env (get_focus query) store v fresh =
      rw (run_read id_string user env (get_focus query) store tt) v
  run-IsValid env (update_focus input) store v fresh =
      rw forget-store (Methods.update_focus-IsValid store v user input env)
  run-IsValid env (delete_focus id) store v fresh =
      rw forget-store (Methods.delete_focus-IsValid store v user id env)
  run-IsValid env (list_focus_children parent page query) store v fresh =
      rw (run_read id_string user env (list_focus_children parent page query) store tt) v
  run-IsValid env (list_focus_goals focus page) store v fresh =
      rw (run_read id_string user env (list_focus_goals focus page) store tt) v
  run-IsValid env (create_goal input) store v fresh =
      rw forget-store (Methods.create_goal-IsValid store v user input env)
  run-IsValid env (get_goal id) store v fresh =
      rw (run_read id_string user env (get_goal id) store tt) v
  run-IsValid env (update_goal input) store v fresh =
      rw forget-store (Methods.update_goal-IsValid store v user input env)
  run-IsValid env (delete_goal id) store v fresh =
      rw forget-store (Methods.delete_goal-IsValid store v user id env)
  run-IsValid env (link_goal_focus link) store v fresh =
      rw forget-store (Methods.link_goal_focus-IsValid store v user link env)
  run-IsValid env (unlink_goal_focus link) store v fresh =
      rw forget-store (Methods.unlink_goal_focus-IsValid store v user link env)

  -- Every store that a history of calls leads to from the one that New makes is well formed, if
  -- each identifier drawn is one that no focus has: keys are unique and are the identifiers,
  -- every parent exists, the hierarchy has no cycle, and every goal is owned by a focus that
  -- exists.
  pub Reach-IsValid : {store : Store} → Reach id_string user store → IsValid store
  Reach-IsValid start = seed-IsValid
  Reach-IsValid (next {store} r env call fresh) = run-IsValid env call store (Reach-IsValid r) fresh

  update_ends :
      (env : Env) (input : UpdateFocus) (store : Store)
      → IsValid store
      → ¬ ((forget (Focuses.update_focus user input env store)).0 ≡ overflow)
  update_ends env input store v h = elim (update_focus-cases store v user input env) [
    | inl (missing, e) ↦ ground arith
    | inr (old, found, refused_cycle p m b e) ↦ ground arith
    | inr (old, found, refused_parent p m out missing e) ↦ ground arith
    | inr (old, found, saved may e focuses goals) ↦ ground arith
  ]

  delete_ends :
      (env : Env) (id : Uuid) (store : Store)
      → IsValid store
      → ¬ ((forget (Focuses.delete_focus user id env store)).0 ≡ overflow)
  delete_ends env id store v h = elim (delete_focus-cases store v user id env) [
    | inl (missing, e) ↦ ground arith
    | inr (ds, marks, e, without) ↦ ground arith
  ]

  -- Every call on a well-formed store ends: no recursion goes on for ever.
  pub run_ends :
      (env : Env) (call : Call) (store : Store)
      → IsValid store
      → ¬ ((run id_string user env call store).0 ≡ overflow)
  unfolding run Focuses.create_flow Focuses.create_focus Focuses.get_focus Focuses.list_flows
      Focuses.list_focus_children Goals.list_focus_goals Goals.create_goal Goals.get_goal
      Goals.update_goal Goals.delete_goal Goals.link_goal_focus Goals.unlink_goal_focus
  run_ends env (update_focus input) store v = update_ends env input store v
  run_ends env (delete_focus id) store v = delete_ends env id store v
  run_ends env call store v = λ h. ground arith

  -- After any history of calls from the seed, if every identifier drawn is one that no focus has
  -- yet, every further call ends: the recursion that looks for a cycle and the one that deletes a
  -- subtree do not go on for ever.
  pub Reach-ends :
      {store : Store}
      → Reach id_string user store
      → (env : Env) (call : Call) → ¬ ((run id_string user env call store).0 ≡ overflow)
  Reach-ends {store} r env call = run_ends env call store (Reach-IsValid r)
