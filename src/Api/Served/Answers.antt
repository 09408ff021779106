-- ===== src/Api/Served/Answers.antt =====
-- What the API on the store in memory answers.
use focus_flow.Common.{
  ℕ, ◌≡◌, refl, inl, inr, String, Bool, true, false, Option, none, some, List, [], ◌∷◌, arith,
  if◌then◌else◌, ◌==◌, ◌&&◌, member, str_eq,
}
use focus_flow.Storage.{Outcome, ok, err, overflow, not_found, invalid_hierarchy, other}
use focus_flow.Model
use focus_flow.Model.{Uuid}
use focus_flow.Model.Int.{ℤ}
use focus_flow.Fake.State.{Store, Env}
use focus_flow.Fake.Valid.{IsValid}
use focus_flow.Fake.Repositories.{focus_store, goal_store}
use focus_flow.Fake.Calls.Errors.{
  only, never, missing_only, refusal, update_focus-only, delete_focus-only, create_focus-only,
  create_flow-only, create_goal-only, update_goal-only, delete_goal-only, get_goal-only,
  link_goal_focus-only, unlink_goal_focus-only, list_flows-only, get_focus-only,
  list_focus_children-only, list_focus_goals-only,
}
use focus_flow.Api.Mappers
use focus_flow.Api.User
use focus_flow.Api.User.{
  Reply, success, problem, failed, endless, unauthorized, answer, with_query, no_errors,
  not_found_error, hierarchy_error,
}
use focus_flow.Api.Mappers.Query.{query_from_params-cases}
use focus_flow.Api.Handler.{valid_include}
use focus_flow.Api.Handler.Checks.{valid_include-query}
use focus_flow.Api.Served.{
  Request, list_flows, create_flow, create_focus, delete_focus, get_focus, update_focus,
  list_focus_children, list_focus_goals, create_goal, delete_goal, get_goal, update_goal,
  link_goal_focus, unlink_goal_focus, without_body, serve,
}

-- The status of a success that contracts/openapi.yaml gives for the operation.
abbrev success_status : Request → ℕ
success_status (create_flow body) = 201
success_status (create_focus body) = 201
success_status (create_goal focus body) = 201
success_status (delete_focus focus) = 204
success_status (delete_goal goal) = 204
success_status _ = 200

-- The problems that the contract lists for the operation beside 401.
abbrev problem_statuses : Request → List ℕ
problem_statuses (list_flows limit cursor include depth) = []
problem_statuses (create_flow body) = []
problem_statuses (update_focus focus body) = 404 ∷ 409 ∷ []
problem_statuses _ = 404 ∷ []

-- The code of the error body that goes with a problem.
abbrev problem_code : ℕ → String
problem_code status = if status == 404 then "not_found" else "conflict"

abbrev listed_as : {A : Type 0} → ℕ → List ℕ → Reply A → Bool
listed_as status problems (success s body) = s == status
listed_as status problems (problem s body) = member s problems && str_eq body.code (problem_code s)
listed_as status problems (failed e) = false
listed_as status problems endless = false

-- The reply is one that the contract lists for the request of a user.
abbrev pub is_listed : Request → Reply (Unit {0}) → Bool
is_listed r reply = listed_as (success_status r) (problem_statuses r) reply

-- The check of the query parameters has let the request through.
abbrev IncludeValid : Option String → Type 0
IncludeValid none = Unit
IncludeValid (some include) = valid_include (include ∷ []) ≡ true

-- With `include` checked, the parameters make a query for the focus.
pub accepted_query :
    (id : Uuid) (include : Option String) (depth : Option ℤ)
    → IncludeValid include
    → (query : Model.FocusQuery) × (Mappers.query_from_params id include depth ≡ ok query)
      × (query.id ≡ id)
accepted_query id none depth h = elim (query_from_params-cases id none depth) [
  | inl (good, e) ↦ (_, e, refl)
  | inr (bad, text, e) ↦ absurd (ground arith)
]
accepted_query id (some include) depth h = elim (query_from_params-cases id (some include) depth) [
  | inl (good, e) ↦ (_, e, refl)
  | inr (bad, text, e) ↦ let (query, made) = valid_include-query include id depth h in absurd cc
]

abbrev pub Accepted : Request → Type 0
Accepted (list_flows limit cursor include depth) = IncludeValid include
Accepted (get_focus focus include depth) = IncludeValid include
Accepted (list_focus_children focus limit cursor include depth) = IncludeValid include
Accepted _ = Unit

module _ {A B : Type 0} (status : ℕ) (map : A → B) where
  answer-never :
      (r : Outcome A × Store)
      → only never r.0 ≡ true
      → listed_as status [] (without_body (answer status map no_errors r)).0 ≡ true
  answer-never (ok a, store) h = ground arith
  answer-never (err e, store) h = absurd (ground arith)
  answer-never (overflow, store) h = absurd (ground arith)

  answer-missing :
      (r : Outcome A × Store)
      → only missing_only r.0 ≡ true
      → listed_as status (404 ∷ []) (without_body (answer status map not_found_error r)).0 ≡ true
  answer-missing (ok a, store) h = ground arith
  answer-missing (err not_found, store) h = refl
  answer-missing (err invalid_hierarchy, store) h = absurd (ground arith)
  answer-missing (err (other text), store) h = absurd (ground arith)
  answer-missing (overflow, store) h = absurd (ground arith)

  answer-refusal :
      (r : Outcome A × Store)
      → only refusal r.0 ≡ true
      → listed_as status (404 ∷ 409 ∷ []) (without_body (answer status map hierarchy_error r)).0
        ≡ true
  answer-refusal (ok a, store) h = ground arith
  answer-refusal (err not_found, store) h = refl
  answer-refusal (err invalid_hierarchy, store) h = refl
  answer-refusal (err (other text), store) h = absurd (ground arith)
  answer-refusal (overflow, store) h = absurd (ground arith)

module _ (store : Store) (v : IsValid store) where
  module _ (id_string : Uuid → String) (user : Uuid) (env : Env) where
    -- With `include` checked, what is answered to every query is answered.
    with_query-answer :
        {A : Type 0} (status : ℕ) (problems : List ℕ) (id : Uuid) (include : Option String)
        (depth : Option ℤ) (next : Model.FocusQuery → Reply A × Store)
        → IncludeValid include
        → ((query : Model.FocusQuery)
            → listed_as status problems (without_body (next query)).0 ≡ true)
        → listed_as status problems
            (without_body (with_query (Mappers.query_from_params id include depth) store next)).0
          ≡ true
    with_query-answer status problems id include depth next h each =
        let (query, e, same) = accepted_query id include depth h in rw e (each query)

    -- On a well-formed store in memory, a request with a user whose include parameter has passed
    -- the check of the query parameters is answered with the status of success that the contract
    -- lists for the operation, or with a problem that it lists there, 404 with the code not_found
    -- or 409 with the code conflict, never by an internal error or not at all.
    pub serve-answers :
        (r : Request)
        → Accepted r
        → is_listed r
            (serve (focus_store id_string env) (goal_store id_string env) (some user) r store).0
          ≡ true
    unfolding serve User.list_flows User.create_flow User.create_focus User.delete_focus
        User.get_focus User.update_focus User.list_focus_children User.list_focus_goals
        User.create_goal User.delete_goal User.get_goal User.update_goal User.link_goal_focus
        User.unlink_goal_focus
    serve-answers (list_flows limit cursor include depth) h =
        with_query-answer 200 [] Model.nil_id include depth _ h
          (λ query. answer-never _ _ _ (list_flows-only store v id_string user env _ _))
    serve-answers (create_flow body) h = answer-never _ _ _ (create_flow-only store v user _ env)
    serve-answers (create_focus body) h =
        answer-missing _ _ _ (create_focus-only store v user _ env)
    serve-answers (delete_focus focus) h =
        answer-missing _ _ _ (delete_focus-only store v user focus env)
    serve-answers (get_focus focus include depth) h =
        with_query-answer 200 (404 ∷ []) focus include depth _ h
          (λ query. answer-missing _ _ _ (get_focus-only store v id_string user env query))
    serve-answers (update_focus focus body) h =
        answer-refusal _ _ _ (update_focus-only store v user _ env)
    serve-answers (list_focus_children focus limit cursor include depth) h =
        with_query-answer 200 (404 ∷ []) focus include depth _ h (λ query.
          answer-missing _ _ _ (list_focus_children-only store v id_string user env focus _ query))
    serve-answers (list_focus_goals focus limit cursor) h =
        answer-missing _ _ _ (list_focus_goals-only store v id_string user env focus _)
    serve-answers (create_goal focus body) h =
        answer-missing _ _ _ (create_goal-only store v user _ env)
    serve-answers (delete_goal goal) h =
        answer-missing _ _ _ (delete_goal-only store v user goal env)
    serve-answers (get_goal goal) h = answer-missing _ _ _ (get_goal-only store v user goal env)
    serve-answers (update_goal goal body) h =
        answer-missing _ _ _ (update_goal-only store v user _ env)
    serve-answers (link_goal_focus goal body) h =
        answer-missing _ _ _ (link_goal_focus-only store v user _ env)
    serve-answers (unlink_goal_focus goal focus) h =
        answer-missing _ _ _ (unlink_goal_focus-only store v user _ env)
