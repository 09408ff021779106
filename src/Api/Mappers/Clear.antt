-- ===== src/Api/Mappers/Clear.antt =====
-- UpdateFocusToInternal: the fields to clear.
use focus_flow.Common.{
  ◌≡◌, refl, ◌∙◌, inl, inr, String, Bool, true, false, ◌||◌, List, [], ◌∷◌, arith, str_eq,
  str_eq_iff, Bool-cases,
}
use focus_flow.Model.{Uuid, UpdateFocus, NullableUpdate}
use focus_flow.Api.Wire.{UpdateFocusRequest}
use focus_flow.Api.Mappers.{
  cleared, nullable_value, slice_from_ptr, clear_field, clear_fields, update_focus_to_internal,
}
use focus_flow.Api.Mappers.Query.{has}

-- Cleared if the flag says so.
abbrev pub unless {ℓ} : {A : Type ℓ} → Bool → NullableUpdate A → NullableUpdate A
unless true update = cleared
unless false update = update

abbrev all_cleared : List String → UpdateFocus → UpdateFocus
all_cleared names update = record update {
  parent_id = unless (has "parentId" names) update.parent_id;
  description = unless (has "description" names) update.description;
  feedback = unless (has "feedback" names) update.feedback;
  color = unless (has "color" names) update.color;
}

unless_or {ℓ} :
    {A : Type ℓ} (a b : Bool) (u : NullableUpdate A)
    → unless b (unless (a || false) u) ≡ unless (a || b) u
unless_or true true u = refl
unless_or true false u = refl
unless_or false b u = refl

one_cleared :
    (name : String) (update : UpdateFocus)
    → clear_field name update ≡ all_cleared (name ∷ []) update
one_cleared name update = elim (Bool-cases (str_eq name "parentId")) [
  | inl same ↦ rw ((str_eq_iff name "parentId").0 same) refl
  | inr a ↦ elim (Bool-cases (str_eq name "description")) [
    | inl same ↦ rw ((str_eq_iff name "description").0 same) refl
    | inr b ↦ elim (Bool-cases (str_eq name "feedback")) [
      | inl same ↦ rw ((str_eq_iff name "feedback").0 same) refl
      | inr c ↦ elim (Bool-cases (str_eq name "color")) [
        | inl same ↦ rw ((str_eq_iff name "color").0 same) refl
        | inr d ↦ ground arith
      ]
    ]
  ]
]

clear_fields-all :
    (names : List String) (update : UpdateFocus)
    → clear_fields names update ≡ all_cleared names update
clear_fields-all [] update = refl
clear_fields-all (name ∷ names) update =
    clear_fields-all names (clear_field name update)
    ∙ rw (one_cleared name update) (
        let has_name : String → Bool = λ field. str_eq name field in
        rw
          (
            unless_or (has_name "parentId") (has "parentId" names) update.parent_id,
            unless_or (has_name "description") (has "description" names) update.description,
            unless_or (has_name "feedback") (has "feedback" names) update.feedback,
            unless_or (has_name "color") (has "color" names) update.color,
          )
          refl)

-- UpdateFocusToInternal makes each of the four optional fields a set value without content if
-- clearFields names it, and else sets it exactly if the request has a value; other names change
-- nothing and the other fields are taken over.
pub update_focus_to_internal-cleared :
    (id : Uuid) (value : UpdateFocusRequest)
    → let names = slice_from_ptr value.clear_fields in
      update_focus_to_internal id value ≡ record {
        id = id;
        parent_id = unless (has "parentId" names) (nullable_value value.parent_id);
        name = value.name;
        status = value.status;
        tags = value.tags;
        description = unless (has "description" names) (nullable_value value.description);
        feedback = unless (has "feedback" names) (nullable_value value.feedback);
        color = unless (has "color" names) (nullable_value value.color);
      }
unfolding update_focus_to_internal
update_focus_to_internal-cleared id value =
    clear_fields-all (slice_from_ptr value.clear_fields) (record {
      id = id;
      parent_id = nullable_value value.parent_id;
      name = value.name;
      status = value.status;
      tags = value.tags;
      description = nullable_value value.description;
      feedback = nullable_value value.feedback;
      color = nullable_value value.color;
    })
