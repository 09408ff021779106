-- ===== src/Api/User.antt =====
-- backend/internal/api/user.go: the handlers of the protected operations, over the services.
--
-- The context of a request gives the user or none. A response is a status with a body, an error
-- body with its status, or an error, which `writeInternalServerError` answers. The body of a request
-- is there: the generated code decodes it before it calls a handler.
use focus_flow.Common.{ℕ, if◌then◌else◌, String, Bool, true, false, Option, none, some}
use focus_flow.Storage.{Outcome, Error, ok, err, overflow, not_found, invalid_hierarchy}
use focus_flow.Model
use focus_flow.Model.Int.{ℤ}
use focus_flow.Repositories.{FocusStore, GoalStore}
use focus_flow.Service
use focus_flow.Api.Wire
use focus_flow.Api.Mappers
use focus_flow.Api.Outgoing

pub data Reply (A : Type 0) : Type 0 where
  success : ℕ → A → Reply A
  problem : ℕ → Wire.ErrorResponse → Reply A
  failed : Error → Reply A
  endless : Reply A

abbrev pub unauthorized : Wire.ErrorResponse
unauthorized = record {
  code = "unauthorized";
  message = "Authentication is required.";
  request_id = none;
}

abbrev pub not_found_body : Wire.ErrorResponse
not_found_body = record {
  code = "not_found";
  message = "The requested resource was not found.";
  request_id = none;
}

abbrev pub conflict : Wire.ErrorResponse
conflict = record {
  code = "conflict";
  message = "The requested change conflicts with the current resource state.";
  request_id = none;
}

abbrev pub is_not_found : Error → Bool
is_not_found not_found = true
is_not_found _ = false

abbrev pub is_invalid_hierarchy : Error → Bool
is_invalid_hierarchy invalid_hierarchy = true
is_invalid_hierarchy _ = false

-- What a handler answers to an error of the service: `return nil, err`, after the test for
-- ErrNotFound, or after that and the one for ErrInvalidHierarchy.
abbrev pub no_errors : {A : Type 0} → Error → Reply A
no_errors e = failed e

abbrev pub not_found_error : {A : Type 0} → Error → Reply A
not_found_error e = if is_not_found e then problem 404 not_found_body else failed e

abbrev pub hierarchy_error : {A : Type 0} → Error → Reply A
hierarchy_error e =
    if is_not_found e
    then problem 404 not_found_body
    else (if is_invalid_hierarchy e then problem 409 conflict else failed e)

-- The check of the context that every handler starts with.
abbrev pub with_user :
    {S A : Type 0} → Option Model.Uuid → S → (Model.Uuid → Reply A × S) → Reply A × S
with_user none store next = (problem 401 unauthorized, store)
with_user (some user) store next = next user

-- The end of a handler: the status and the mapping of the value, and the answer to an error.
abbrev pub answer : {S A B : Type 0} → ℕ → (A → B) → (Error → Reply B) → Outcome A × S → Reply B × S
answer status map known (ok value, store) = (success status (map value), store)
answer status map known (err e, store) = (known e, store)
answer status map known (overflow, store) = (endless, store)

-- The query that the parameters make, or their error.
abbrev pub with_query :
    {S A : Type 0} → Outcome Model.FocusQuery → S → (Model.FocusQuery → Reply A × S) → Reply A × S
with_query (ok query) store next = next query
with_query (err e) store next = (failed e, store)
with_query overflow store next = (endless, store)

abbrev pub get_current_session :
    {S : Type 0} → Option Model.Session → S → Reply Wire.AuthSession × S
get_current_session none store = (problem 401 unauthorized, store)
get_current_session (some session) store =
    (success 200 (Outgoing.session_from_internal session), store)

module _ {S : Type 0} (focuses : FocusStore S) (user : Option Model.Uuid) where
  unfoldable pub list_flows :
      Option ℤ → Option String → Option String → Option ℤ → S → Reply Wire.FocusPage × S
  list_flows limit cursor include depth store = with_user user store λ id.
      with_query (Mappers.query_from_params Model.nil_id include depth) store λ query.
        answer 200 Outgoing.focus_page_from_internal no_errors (
          Service.list_flows focuses id (Mappers.page_request_from_params limit cursor) query store)

  unfoldable pub create_flow : Wire.CreateFlowRequest → S → Reply Wire.Focus × S
  create_flow body store = with_user user store λ id.
      answer 201 Outgoing.focus_from_internal no_errors
        (Service.create_flow focuses id (Mappers.create_flow_to_internal body) store)

  unfoldable pub create_focus : Wire.CreateFocusRequest → S → Reply Wire.Focus × S
  create_focus body store = with_user user store λ id.
      answer 201 Outgoing.focus_from_internal not_found_error
        (Service.create_focus focuses id (Mappers.create_focus_to_internal body) store)

  unfoldable pub delete_focus : Model.Uuid → S → Reply (Unit {0}) × S
  delete_focus focus store =
      with_user user store λ id.
        answer 204 (λ done. done) not_found_error (Service.delete_focus focuses id focus store)

  unfoldable pub get_focus : Model.Uuid → Option String → Option ℤ → S → Reply Wire.Focus × S
  get_focus focus include depth store = with_user user store λ id.
      with_query (Mappers.query_from_params focus include depth) store λ query.
        answer 200 Outgoing.focus_from_internal not_found_error
          (Service.get_focus focuses id query store)

  unfoldable pub update_focus : Model.Uuid → Wire.UpdateFocusRequest → S → Reply Wire.Focus × S
  update_focus focus body store = with_user user store λ id.
      answer 200 Outgoing.focus_from_internal hierarchy_error
        (Service.update_focus focuses id (Mappers.update_focus_to_internal focus body) store)

  unfoldable pub list_focus_children :
      Model.Uuid
      → Option ℤ
      → Option String
      → Option String
      → Option ℤ
      → S
      → Reply Wire.FocusPage × S
  list_focus_children focus limit cursor include depth store = with_user user store λ id.
      with_query (Mappers.query_from_params focus include depth) store λ query.
        answer 200 Outgoing.focus_page_from_internal not_found_error (
          Service.list_focus_children focuses id focus
            (Mappers.page_request_from_params limit cursor) query store)

module _ {S : Type 0} (goals : GoalStore S) (user : Option Model.Uuid) where
  unfoldable pub list_focus_goals :
      Model.Uuid → Option ℤ → Option String → S → Reply Wire.GoalPage × S
  list_focus_goals focus limit cursor store = with_user user store λ id.
      answer 200 Outgoing.goal_page_from_internal not_found_error (
        Service.list_focus_goals goals id focus (Mappers.page_request_from_params limit cursor)
          store)

  unfoldable pub create_goal : Model.Uuid → Wire.CreateGoalRequest → S → Reply Wire.Goal × S
  create_goal focus body store = with_user user store λ id.
      answer 201 Outgoing.goal_from_internal not_found_error
        (Service.create_goal goals id (Mappers.create_goal_to_internal focus body) store)

  unfoldable pub delete_goal : Model.Uuid → S → Reply (Unit {0}) × S
  delete_goal goal store =
      with_user user store
        λ id. answer 204 (λ done. done) not_found_error (Service.delete_goal goals id goal store)

  unfoldable pub get_goal : Model.Uuid → S → Reply Wire.Goal × S
  get_goal goal store = with_user user store λ id.
      answer 200 Outgoing.goal_from_internal not_found_error (Service.get_goal goals id goal store)

  unfoldable pub update_goal : Model.Uuid → Wire.UpdateGoalRequest → S → Reply Wire.Goal × S
  update_goal goal body store = with_user user store λ id.
      answer 200 Outgoing.goal_from_internal not_found_error
        (Service.update_goal goals id (Mappers.update_goal_to_internal goal body) store)

  unfoldable pub link_goal_focus : Model.Uuid → Wire.LinkGoalFocusRequest → S → Reply Wire.Goal × S
  link_goal_focus goal body store = with_user user store λ id.
      answer 200 Outgoing.goal_from_internal not_found_error
        (Service.link_goal_focus goals id (Mappers.link_goal_focus_to_internal goal body) store)

  unfoldable pub unlink_goal_focus : Model.Uuid → Model.Uuid → S → Reply Wire.Goal × S
  unlink_goal_focus goal focus store = with_user user store λ id.
      answer 200 Outgoing.goal_from_internal not_found_error (
        Service.unlink_goal_focus goals id (Mappers.unlink_goal_focus_to_internal goal focus) store)
