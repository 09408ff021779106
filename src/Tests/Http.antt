-- ===== src/Tests/Http.antt =====
-- The API at concrete requests.
use focus_flow.Common.{
  trim_space, ℕ, ◌≤◌, ◌≡◌, refl, ◌⊎◌, String, true, false, ◌&&◌, none, some, [], ◌∷◌, split,
  if◌then◌else◌, or_keep,
}
use focus_flow.Storage.{ok, err, other}
use focus_flow.Model.{FocusQuery}
use focus_flow.Model.Int.{pos}
use focus_flow.Api.Wire.{UpdateFocusRequest}
use focus_flow.Api.Mappers.{
  nullable_value, slice_from_ptr, include_of, query_from_params, update_focus_to_internal,
}
use focus_flow.Api.Mappers.Query.{has, supported, query_from_params-cases}
use focus_flow.Api.Mappers.Clear.{unless, update_focus_to_internal-cleared}
use focus_flow.Api.Handler.{
  HttpRequest, QueryValues, allowed, atoi, valid_include, valid_query_parameters, handle,
}
use focus_flow.Api.Handler.Checks.{
  among, all_of, is_allowed, status_of, sets, headers, headers, sets, handle-allowed, handle-cases,
  valid_include-query, valid_query_parameters-limit,
}
use focus_flow.Fake.Repositories.{focus_store, goal_store}
use focus_flow.Api.Served.{list_flows, serve}
use focus_flow.Api.Served.Answers.{is_listed, serve-answers}
use focus_flow.Tests.Sample.{text, user, env, sample, sample-IsValid}

-- To clear the parent and the color, with a new color given.
abbrev change : UpdateFocusRequest
change = record {
  clear_fields = some ("parentId" ∷ "color" ∷ "size" ∷ []);
  color = some "red";
  description = some "text";
  feedback = none;
  name = none;
  parent_id = none;
  status = none;
  tags = none;
}

abbrev given : QueryValues
given = record {
  limit = some ("20" ∷ []);
  depth = some ("5" ∷ []);
  cursor = none;
  include = some ("goals, children" ∷ []);
}

abbrev preflight : HttpRequest
preflight = record {
  method = "OPTIONS";
  origin = "https://app.example";
  request_method = "PATCH";
  request_headers = "content-type";
  query = given;
}

serve-answers_example :
    is_listed
      (list_flows none none (some "goals, children") none)
      (serve
        (focus_store text env)
        (goal_store text env)
        (some user)
        (list_flows none none (some "goals, children") none)
        sample).0
    ≡ true
unfolding valid_include
serve-answers_example =
    serve-answers sample sample-IsValid text user env
      (list_flows none none (some "goals, children") none) refl

update_focus_to_internal-cleared_example :
    let names = slice_from_ptr change.clear_fields in
    update_focus_to_internal 3 change ≡ record {
      id = 3;
      parent_id = unless (has "parentId" names) (nullable_value change.parent_id);
      name = change.name;
      status = change.status;
      tags = change.tags;
      description = unless (has "description" names) (nullable_value change.description);
      feedback = unless (has "feedback" names) (nullable_value change.feedback);
      color = unless (has "color" names) (nullable_value change.color);
    }
update_focus_to_internal-cleared_example = update_focus_to_internal-cleared 3 change

query_from_params-cases_example :
    let tokens = include_of (some "goals,children") in
    ((supported tokens ≡ true)
      × (query_from_params 3 (some "goals,children") (some (pos 4))
          ≡ ok (record {
            id = 3;
            include_goals = has "goals" tokens;
            include_specs = false;
            descendant_depth =
                or_keep (some (pos 4)) (if has "children" tokens then pos 1 else pos 0);
            children_page_request = none;
          })))
    ⊎ ((supported tokens ≡ false)
        × (text : String) × (query_from_params 3 (some "goals,children") (some (pos 4))
            ≡ err (other text)))
query_from_params-cases_example = query_from_params-cases 3 (some "goals,children") (some (pos 4))

valid_include-query_example :
    (query : FocusQuery) × (query_from_params 3 (some "goals, children") none ≡ ok query)
unfolding valid_include
valid_include-query_example = valid_include-query "goals, children" 3 none refl

handle-allowed_example :
    let hs = headers (handle (λ s. s) ("https://app.example" ∷ []) preflight) in
    (sets "Access-Control-Allow-Origin" hs
      ≡ allowed ("https://app.example" ∷ []) "https://app.example")
    × (sets "Access-Control-Allow-Credentials" hs
        ≡ allowed ("https://app.example" ∷ []) "https://app.example")
handle-allowed_example = handle-allowed (λ s. s) ("https://app.example" ∷ []) preflight

handle-cases_example :
    let good =
      allowed ("https://app.example" ∷ []) preflight.origin
      && among preflight.request_method ("DELETE" ∷ "GET" ∷ "PATCH" ∷ "POST" ∷ [])
      && all_of (λ name. is_allowed (trim_space name)) (split 44 preflight.request_headers) in
    let handled = handle (λ s. s) ("https://app.example" ∷ []) preflight in
    (status_of handled ≡ some (if good then 204 else 403))
    × (sets "Access-Control-Allow-Methods" (headers handled) ≡ good)
    × (sets "Access-Control-Allow-Headers" (headers handled) ≡ good)
handle-cases_example = handle-cases (λ s. s) ("https://app.example" ∷ []) preflight

valid_query_parameters-limit_example :
    (value : String) × (n : ℕ) × (("20" ∷ []) ≡ value ∷ [])
    × (atoi value ≡ some (pos n))
    × (1 ≤ n)
    × (n ≤ 100)
unfolding valid_query_parameters valid_include
valid_query_parameters-limit_example = valid_query_parameters-limit given ("20" ∷ []) refl refl
