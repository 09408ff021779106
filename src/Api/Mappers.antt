-- ===== src/Api/Mappers.antt =====
-- backend/internal/api/model/mappers.go and helpers.go: from the HTTP contract to the internal
-- models. A conversion between string types keeps the string.
pub mod Query
pub mod Clear
use focus_flow.Common.{
  ℕ, ◌+◌, ◌==◌, if◌then◌else◌, String, Bool, true, false, Option, none, some, List, [], ◌∷◌, ◌++◌,
  map, str_eq, is_some, split, trim_space, is_empty,
}
use Prim.Native.String.{◌++◌ as append}
use focus_flow.Storage.{Outcome, ok, err, overflow, other}
use focus_flow.Model
use focus_flow.Model.Int.{ℤ, pos, negsuc}
use focus_flow.Api.Wire

-- sliceFromPtr: no slice is the nil slice.
abbrev pub slice_from_ptr {ℓ} : {A : Type ℓ} → Option (List A) → List A
slice_from_ptr none = []
slice_from_ptr (some values) = [] ++ values

-- nullableStringValue and nullableFocusStatusValue.
abbrev pub nullable_value {ℓ} : {A : Type ℓ} → Option A → Model.NullableUpdate A
nullable_value value = record { set = is_some value; value = value }

-- `NullableUpdate{Set: true}`
abbrev pub cleared {ℓ} : {A : Type ℓ} → Model.NullableUpdate A
cleared = record { set = true; value = none }

abbrev pub create_focus_to_internal : Wire.CreateFocusRequest → Model.CreateFocus
create_focus_to_internal value = record {
  parent_id = value.parent_id;
  name = value.name;
  status = value.status;
  tags = slice_from_ptr value.tags;
  description = value.description;
  feedback = value.feedback;
  color = value.color;
}

abbrev pub create_flow_to_internal : Wire.CreateFlowRequest → Model.CreateFocus
create_flow_to_internal value = record {
  parent_id = none;
  name = value.name;
  status = value.status;
  tags = slice_from_ptr value.tags;
  description = value.description;
  feedback = value.feedback;
  color = value.color;
}

-- The switch over one field to clear; an unknown one is passed over.
abbrev pub clear_field : String → Model.UpdateFocus → Model.UpdateFocus
clear_field field update =
    if str_eq field "parentId"
    then record update { parent_id = cleared }
    else (if str_eq field "description"
        then record update { description = cleared }
        else (if str_eq field "feedback"
            then record update { feedback = cleared }
            else (if str_eq field "color" then record update { color = cleared } else update)))

abbrev pub clear_fields : List String → Model.UpdateFocus → Model.UpdateFocus
clear_fields [] update = update
clear_fields (field ∷ rest) update = clear_fields rest (clear_field field update)

unfoldable pub update_focus_to_internal : Model.Uuid → Wire.UpdateFocusRequest → Model.UpdateFocus
update_focus_to_internal id value = clear_fields (slice_from_ptr value.clear_fields) (record {
  id = id;
  parent_id = nullable_value value.parent_id;
  name = value.name;
  status = value.status;
  tags = value.tags;
  description = nullable_value value.description;
  feedback = nullable_value value.feedback;
  color = nullable_value value.color;
})

abbrev pub create_goal_to_internal : Model.Uuid → Wire.CreateGoalRequest → Model.CreateGoal
create_goal_to_internal owner value = record {
  owner_focus_id = owner;
  goal_type = value.goal_type;
  description = value.description;
  status_override = value.status_override;
  linked_focus_ids = map (λ id. id) (slice_from_ptr value.linked_focus_ids);
}

abbrev pub clear_override : List String → Model.UpdateGoal → Model.UpdateGoal
clear_override [] update = update
clear_override (field ∷ rest) update =
    clear_override rest (
      if str_eq field "statusOverride" then record update { status_override = cleared } else update)

-- focusIDsPtr
abbrev pub focus_ids_ptr : Option (List Model.Uuid) → Option (List Model.Uuid)
focus_ids_ptr none = none
focus_ids_ptr (some ids) = some (map (λ id. id) ids)

unfoldable pub update_goal_to_internal : Model.Uuid → Wire.UpdateGoalRequest → Model.UpdateGoal
update_goal_to_internal id value = clear_override (slice_from_ptr value.clear_fields) (record {
  id = id;
  goal_type = value.goal_type;
  description = value.description;
  status_override = nullable_value value.status_override;
  linked_focus_ids = focus_ids_ptr value.linked_focus_ids;
})

abbrev pub login_to_internal : Wire.LoginRequest → Model.LoginCredentials
login_to_internal value = record { username = value.username; password = value.password }

abbrev pub link_goal_focus_to_internal :
    Model.Uuid → Wire.LinkGoalFocusRequest → Model.GoalFocusLink
link_goal_focus_to_internal goal value = record { goal_id = goal; focus_id = value.focus_id }

abbrev pub unlink_goal_focus_to_internal : Model.Uuid → Model.Uuid → Model.GoalFocusLink
unlink_goal_focus_to_internal goal focus = record { goal_id = goal; focus_id = focus }

-- The loop of splitInclude; 44 is the comma.
abbrev pub keep_trimmed : List String → List String
keep_trimmed [] = []
keep_trimmed (part ∷ parts) =
    let trimmed = trim_space part in
    let rest = keep_trimmed parts in if is_empty trimmed then rest else trimmed ∷ rest

unfoldable pub split_include : String → List String
split_include value = keep_trimmed (split 44 value)

-- `if query.DescendantDepth == 0 { query.DescendantDepth = 1 }`
abbrev pub at_least_one : ℤ → ℤ
at_least_one (pos n) = if n == 0 then pos 1 else pos n
at_least_one (negsuc n) = negsuc n

-- The loop of QueryFromParams; the error is UnsupportedIncludeError.
abbrev pub include_tokens : List String → Model.FocusQuery → Outcome Model.FocusQuery
include_tokens [] query = ok query
include_tokens (token ∷ tokens) query =
    if str_eq token "goals"
    then include_tokens tokens (record query { include_goals = true })
    else (if str_eq token "children"
        then include_tokens tokens
            (record query { descendant_depth = at_least_one query.descendant_depth })
        else err (other (append "unsupported include value " token)))

abbrev pub with_depth : Option ℤ → Outcome Model.FocusQuery → Outcome Model.FocusQuery
with_depth (some depth) (ok query) = ok (record query { descendant_depth = depth })
with_depth _ result = result

abbrev pub include_of : Option String → List String
include_of none = []
include_of (some include) = split_include include

unfoldable pub query_from_params : Model.Uuid → Option String → Option ℤ → Outcome Model.FocusQuery
unfolding split_include
query_from_params id include depth = with_depth depth (
    include_tokens (include_of include) (record {
      id = id;
      include_goals = false;
      include_specs = false;
      descendant_depth = pos 0;
      children_page_request = none;
    }))

abbrev pub limit_of : Option ℤ → ℤ
limit_of none = pos 50
limit_of (some limit) = limit

abbrev pub page_request_from_params : Option ℤ → Option String → Model.PageRequest
page_request_from_params limit cursor = record { limit = limit_of limit; cursor = cursor }
