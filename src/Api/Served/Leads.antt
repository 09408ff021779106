-- ===== src/Api/Served/Leads.antt =====
-- What a request does to the state of the stores, as far as their methods promise it.
use focus_flow.Common.{ℕ, ◌≡◌, refl, sym, ap, subst, none, some, Option}
use focus_flow.Storage.{Outcome, Error, ok, err, overflow}
use focus_flow.Model
use focus_flow.Model.{Uuid}
use focus_flow.Repositories.{FocusStore, GoalStore}
use focus_flow.Repositories.Leads.{Reads, Leads}
use focus_flow.Service
use focus_flow.Api.Mappers
use focus_flow.Api.Outgoing
use focus_flow.Api.User
use focus_flow.Api.User.{
  Reply, success, problem, failed, endless, unauthorized, answer, with_query, no_errors,
  not_found_error,
}
use focus_flow.Api.Served.{
  Request, list_flows, create_flow, create_focus, delete_focus, get_focus, update_focus,
  list_focus_children, list_focus_goals, create_goal, delete_goal, get_goal, update_goal,
  link_goal_focus, unlink_goal_focus, without_body, serve,
}

without_body-state : {S A : Type 0} (r : Reply A × S) → (without_body r).1 ≡ r.1
without_body-state (success status body, s) = refl
without_body-state (problem status body, s) = refl
without_body-state (failed e, s) = refl
without_body-state (endless, s) = refl

-- The answer to a method leaves the state that the method leaves.
answer-state :
    {S A B : Type 0} (status : ℕ) (map : A → B) (known : Error → Reply B) (r : Outcome A × S)
    → (answer status map known r).1 ≡ r.1
answer-state status map known (ok a, s) = refl
answer-state status map known (err e, s) = refl
answer-state status map known (overflow, s) = refl

ruleset states = (without_body-state, answer-state)

module _ {S : Type 0} (Q : S → Type 0) where
  answered_query :
      {A B : Type 0} (o : Outcome Model.FocusQuery) (s : S) (status : ℕ) (map : A → B)
      (known : Error → Reply B) (method : Model.FocusQuery → S → Outcome A × S)
      → Q s
      → ((query : Model.FocusQuery) → Q (method query s).1)
      → Q (without_body (with_query o s λ query. answer status map known (method query s))).1
  answered_query (ok query) s status map known method q each = rw states (each query)
  answered_query (err e) s status map known method q each = q
  answered_query overflow s status map known method q each = q

-- A statement about the requests whose method is GET.
abbrev pub IfGet : Request → Type 0 → Type 0
IfGet (list_flows limit cursor include depth) A = A
IfGet (get_focus focus include depth) A = A
IfGet (list_focus_children focus limit cursor include depth) A = A
IfGet (list_focus_goals focus limit cursor) A = A
IfGet (get_goal goal) A = A
IfGet _ A = Unit

module _ {S : Type 0} (focuses : FocusStore S) (goals : GoalStore S) where
  -- Without a user in the context every protected operation answers 401 and leaves the state of
  -- the stores as it is.
  pub serve-unauthorized :
      (r : Request) (s : S) → serve focuses goals none r s ≡ (problem 401 unauthorized, s)
  unfolding serve User.list_flows User.create_flow User.create_focus User.delete_focus
      User.get_focus User.update_focus User.list_focus_children User.list_focus_goals
      User.create_goal User.delete_goal User.get_goal User.update_goal User.link_goal_focus
      User.unlink_goal_focus
  serve-unauthorized (list_flows limit cursor include depth) s = refl
  serve-unauthorized (create_flow body) s = refl
  serve-unauthorized (create_focus body) s = refl
  serve-unauthorized (delete_focus focus) s = refl
  serve-unauthorized (get_focus focus include depth) s = refl
  serve-unauthorized (update_focus focus body) s = refl
  serve-unauthorized (list_focus_children focus limit cursor include depth) s = refl
  serve-unauthorized (list_focus_goals focus limit cursor) s = refl
  serve-unauthorized (create_goal focus body) s = refl
  serve-unauthorized (delete_goal goal) s = refl
  serve-unauthorized (get_goal goal) s = refl
  serve-unauthorized (update_goal goal body) s = refl
  serve-unauthorized (link_goal_focus goal body) s = refl
  serve-unauthorized (unlink_goal_focus goal focus) s = refl

  -- A GET request does what the methods that only read do.
  pub reads_only :
      {P Q : S → Type 0}
      → Reads P Q focuses goals
      → (user : Uuid) (r : Request) (s : S) → P s
      → IfGet r (Q (serve focuses goals (some user) r s).1)
  unfolding serve User.list_flows User.create_flow User.create_focus User.delete_focus
      User.get_focus User.update_focus User.list_focus_children User.list_focus_goals
      User.create_goal User.delete_goal User.get_goal User.update_goal User.link_goal_focus
      User.unlink_goal_focus
  reads_only {Q = Q} laws user (list_flows limit cursor include depth) s p =
      answered_query Q (Mappers.query_from_params Model.nil_id include depth) s 200
        Outgoing.focus_page_from_internal no_errors
        (Service.list_flows focuses user (Mappers.page_request_from_params limit cursor))
        (laws.idle s p) λ query. laws.list_flows user _ _ s p
  reads_only {Q = Q} laws user (get_focus focus include depth) s p =
      answered_query Q (Mappers.query_from_params focus include depth) s 200
        Outgoing.focus_from_internal not_found_error (Service.get_focus focuses user)
        (laws.idle s p) λ query. laws.get_focus user query s p
  reads_only {Q = Q} laws user (list_focus_children focus limit cursor include depth) s p =
      answered_query Q (Mappers.query_from_params focus include depth) s 200
        Outgoing.focus_page_from_internal not_found_error
        (Service.list_focus_children focuses user focus
          (Mappers.page_request_from_params limit cursor))
        (laws.idle s p) λ query. laws.list_focus_children user focus _ query s p
  reads_only {Q = Q} laws user (list_focus_goals focus limit cursor) s p =
      rw states (laws.list_focus_goals user focus _ s p)
  reads_only {Q = Q} laws user (get_goal goal) s p = rw states (laws.get_goal user goal s p)
  reads_only laws user r s p = tt

  module _ {P Q : S → Type 0} (laws : Leads P Q focuses goals) where
    granted : (user : Uuid) (r : Request) (s : S) → P s → Q (serve focuses goals (some user) r s).1
    unfolding serve User.list_flows User.create_flow User.create_focus User.delete_focus
        User.get_focus User.update_focus User.list_focus_children User.list_focus_goals
        User.create_goal User.delete_goal User.get_goal User.update_goal User.link_goal_focus
        User.unlink_goal_focus
    granted user (list_flows limit cursor include depth) s p =
        reads_only laws.reads user (list_flows limit cursor include depth) s p
    granted user (create_flow body) s p = rw states (laws.create_flow user _ s p)
    granted user (create_focus body) s p = rw states (laws.create_focus user _ s p)
    granted user (delete_focus focus) s p = rw states (laws.delete_focus user focus s p)
    granted user (get_focus focus include depth) s p =
        reads_only laws.reads user (get_focus focus include depth) s p
    granted user (update_focus focus body) s p = rw states (laws.update_focus user _ s p)
    granted user (list_focus_children focus limit cursor include depth) s p =
        reads_only laws.reads user (list_focus_children focus limit cursor include depth) s p
    granted user (list_focus_goals focus limit cursor) s p =
        reads_only laws.reads user (list_focus_goals focus limit cursor) s p
    granted user (create_goal focus body) s p = rw states (laws.create_goal user _ s p)
    granted user (delete_goal goal) s p = rw states (laws.delete_goal user goal s p)
    granted user (get_goal goal) s p = reads_only laws.reads user (get_goal goal) s p
    granted user (update_goal goal body) s p = rw states (laws.update_goal user _ s p)
    granted user (link_goal_focus goal body) s p = rw states (laws.link_goal_focus user _ s p)
    granted user (unlink_goal_focus goal focus) s p = rw states (laws.unlink_goal_focus user _ s p)

    -- A request leads from the first property to the second if every method does.
    pub serve-Leads :
        (user : Option Uuid) (r : Request) (s : S) → P s → Q (serve focuses goals user r s).1
    serve-Leads (some user) r s p = granted user r s p
    serve-Leads none r s p =
        subst Q (sym (ap (λ x. x.1) (serve-unauthorized r s))) (laws.reads.idle s p)
