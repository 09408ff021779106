-- ===== src/Fake/Calls/Errors.antt =====
-- The errors that the methods of the store in memory may return.
use focus_flow.Common.{◌≡◌, refl, inl, inr, String, Bool, true, false, arith}
use focus_flow.Storage.{Outcome, Error, ok, err, overflow, not_found, other}
use focus_flow.Model
use focus_flow.Model.{Uuid}
use focus_flow.Fake.State.{Store, Env}
use focus_flow.Fake.Focuses
use focus_flow.Fake.Goals
use focus_flow.Fake.Focuses.Update.{update_focus-cases, refused_cycle, refused_parent, saved}
use focus_flow.Fake.Focuses.Delete.{delete_focus-cases}
use focus_flow.Fake.Valid.{IsValid}

-- The errors that a method may return.
abbrev pub only : {A : Type 0} → (Error → Bool) → Outcome A → Bool
only p (ok a) = true
only p (err e) = p e
only p overflow = false

abbrev pub never : Error → Bool
never e = false

abbrev pub missing_only : Error → Bool
missing_only not_found = true
missing_only _ = false

abbrev pub refusal : Error → Bool
refusal (other text) = false
refusal _ = true

module _ (store : Store) (v : IsValid store) where
  pub update_focus-only :
      (user : Uuid) (input : Model.UpdateFocus) (env : Env)
      → only refusal (Focuses.update_focus user input env store).0 ≡ true
  update_focus-only user input env = elim (update_focus-cases store v user input env) [
    | inl (missing, e) ↦ rw e refl
    | inr (old, found, refused_cycle p m b e) ↦ rw e refl
    | inr (old, found, refused_parent p m out missing e) ↦ rw e refl
    | inr (old, found, saved may e focuses goals) ↦ rw e refl
  ]

  pub delete_focus-only :
      (user id : Uuid) (env : Env)
      → only missing_only (Focuses.delete_focus user id env store).0 ≡ true
  delete_focus-only user id env = elim (delete_focus-cases store v user id env) [
    | inl (missing, e) ↦ rw e refl
    | inr (ds, marks, e, without) ↦ rw e refl
  ]

  pub create_focus-only :
      (user : Uuid) (input : Model.CreateFocus) (env : Env)
      → only missing_only (Focuses.create_focus user input env store).0 ≡ true
  unfolding Focuses.create_focus
  create_focus-only user input env = ground arith

  pub create_flow-only :
      (user : Uuid) (input : Model.CreateFocus) (env : Env)
      → only never (Focuses.create_flow user input env store).0 ≡ true
  unfolding Focuses.create_flow Focuses.create_focus
  create_flow-only user input env = refl

  pub create_goal-only :
      (user : Uuid) (input : Model.CreateGoal) (env : Env)
      → only missing_only (Goals.create_goal user input env store).0 ≡ true
  unfolding Goals.create_goal
  create_goal-only user input env = ground arith

  pub update_goal-only :
      (user : Uuid) (input : Model.UpdateGoal) (env : Env)
      → only missing_only (Goals.update_goal user input env store).0 ≡ true
  unfolding Goals.update_goal
  update_goal-only user input env = ground arith

  pub delete_goal-only :
      (user id : Uuid) (env : Env)
      → only missing_only (Goals.delete_goal user id env store).0 ≡ true
  unfolding Goals.delete_goal
  delete_goal-only user id env = ground arith

  pub get_goal-only :
      (user id : Uuid) (env : Env) → only missing_only (Goals.get_goal user id env store).0 ≡ true
  unfolding Goals.get_goal
  get_goal-only user id env = ground arith

  pub link_goal_focus-only :
      (user : Uuid) (link : Model.GoalFocusLink) (env : Env)
      → only missing_only (Goals.link_goal_focus user link env store).0 ≡ true
  unfolding Goals.link_goal_focus
  link_goal_focus-only user link env = ground arith

  pub unlink_goal_focus-only :
      (user : Uuid) (link : Model.GoalFocusLink) (env : Env)
      → only missing_only (Goals.unlink_goal_focus user link env store).0 ≡ true
  unfolding Goals.unlink_goal_focus
  unlink_goal_focus-only user link env = ground arith

  module _ (id_string : Uuid → String) (user : Uuid) (env : Env) where
    pub list_flows-only :
        (page : Model.PageRequest) (query : Model.FocusQuery)
        → only never (Focuses.list_flows id_string user page query env store).0 ≡ true
    unfolding Focuses.list_flows
    list_flows-only page query = refl

    pub get_focus-only :
        (query : Model.FocusQuery)
        → only missing_only (Focuses.get_focus id_string user query env store).0 ≡ true
    unfolding Focuses.get_focus
    get_focus-only query = ground arith

    pub list_focus_children-only :
        (parent : Uuid) (page : Model.PageRequest) (query : Model.FocusQuery)
        → only missing_only
            (Focuses.list_focus_children id_string user parent page query env store).0
          ≡ true
    unfolding Focuses.list_focus_children
    list_focus_children-only parent page query = ground arith

    pub list_focus_goals-only :
        (focus : Uuid) (page : Model.PageRequest)
        → only missing_only (Goals.list_focus_goals id_string user focus page env store).0 ≡ true
    unfolding Goals.list_focus_goals
    list_focus_goals-only focus page = ground arith
