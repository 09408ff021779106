-- ===== src/Api/Mappers/Query.antt =====
-- QueryFromParams: what it makes of the parameters `include` and `depth`.
use focus_flow.Common.{
  ◌≡◌, refl, ◌∙◌, ap, inl, inr, ◌⊎◌, String, Bool, true, false, ◌||◌, Option, none, some, List, [],
  ◌∷◌, arith, str_eq, if◌then◌else◌, Bool-cases, or_keep, str_eq_iff,
}
use Prim.Native.String.{◌++◌ as append}
use focus_flow.Storage.{ok, err, other, Error}
use focus_flow.Model.{Uuid, FocusQuery}
use focus_flow.Model.Int.{ℤ, pos, negsuc}
use focus_flow.Api.Mappers.{at_least_one, include_tokens, with_depth, include_of, query_from_params}

abbrev pub has : String → List String → Bool
has name [] = false
has name (token ∷ tokens) = let rest = has name tokens in str_eq token name || rest

-- Only the two values that the contract knows.
abbrev pub supported : List String → Bool
supported [] = true
supported (token ∷ tokens) =
    let rest = supported tokens in
    if str_eq token "goals" || str_eq token "children" then rest else false

-- What the tokens ask for, on top of a query.
abbrev asked : List String → FocusQuery → FocusQuery
asked tokens query = record query {
  include_goals = query.include_goals || has "goals" tokens;
  descendant_depth =
      if has "children" tokens then at_least_one query.descendant_depth else query.descendant_depth;
}

or_false : (b : Bool) → b ≡ (b || false)
or_false true = refl
or_false false = refl

at_least_one-twice : (d : ℤ) → at_least_one (at_least_one d) ≡ at_least_one d
at_least_one-twice (pos n) = ground arith
at_least_one-twice (negsuc n) = refl

include_tokens-asked :
    (tokens : List String) (query : FocusQuery)
    → supported tokens ≡ true
    → include_tokens tokens query ≡ ok (asked tokens query)
include_tokens-asked [] query h = ap (λ b. ok (record query { include_goals = b })) (or_false _)
include_tokens-asked (token ∷ tokens) query h = elim (Bool-cases (str_eq token "goals")) [
  | inl goals ↦
      let not_children : str_eq token "children" ≡ false =
        rw ((str_eq_iff token "goals").0 goals) refl in
      ground (arith, include_tokens-asked tokens (record query { include_goals = true }))
  | inr differs ↦ elim (Bool-cases (str_eq token "children")) [
    | inl children ↦ ground (
      arith,
      include_tokens-asked tokens
          (record query { descendant_depth = at_least_one query.descendant_depth }),
      at_least_one-twice query.descendant_depth,
    )
    | inr bad ↦ absurd (ground arith)
  ]
]

include_tokens-refused :
    (tokens : List String) (query : FocusQuery)
    → supported tokens ≡ false
    → (text : String) × (include_tokens tokens query ≡ err (other text))
include_tokens-refused [] query h = absurd (ground arith)
include_tokens-refused (token ∷ tokens) query h = elim (Bool-cases (str_eq token "goals")) [
  | inl goals ↦
      let (text, e) =
        include_tokens-refused tokens (record query { include_goals = true }) (ground arith) in
      (text, ground arith)
  | inr differs ↦ elim (Bool-cases (str_eq token "children")) [
    | inl children ↦
        let (text, e) =
          include_tokens-refused tokens
            (record query { descendant_depth = at_least_one query.descendant_depth })
            (ground arith) in
        (text, ground arith)
    | inr bad ↦ (append "unsupported include value " token, ground arith)
  ]
]

with_depth-ok :
    (depth : Option ℤ) (query : FocusQuery)
    → with_depth depth (ok query)
      ≡ ok (record query { descendant_depth = or_keep depth query.descendant_depth })
with_depth-ok none query = refl
with_depth-ok (some d) query = refl

with_depth-err : (depth : Option ℤ) (e : Error) → with_depth depth (err e) ≡ err e
with_depth-err none e = refl
with_depth-err (some d) e = refl

-- QueryFromParams gives an error exactly if include has a value that is not blank and neither
-- goals nor children; else the query asks for the goals if include has goals, with the depth
-- given, else 1 if include has children, though the contract has 0 there, else 0.
pub query_from_params-cases :
    (id : Uuid) (include : Option String) (depth : Option ℤ)
    → let tokens = include_of include in
      ((supported tokens ≡ true)
        × (query_from_params id include depth
            ≡ ok (record {
              id = id;
              include_goals = has "goals" tokens;
              include_specs = false;
              descendant_depth = or_keep depth (if has "children" tokens then pos 1 else pos 0);
              children_page_request = none;
            })))
      ⊎ ((supported tokens ≡ false)
          × (text : String) × (query_from_params id include depth ≡ err (other text)))
unfolding query_from_params
query_from_params-cases id include depth =
    let empty : FocusQuery = record {
      id = id;
      include_goals = false;
      include_specs = false;
      descendant_depth = pos 0;
      children_page_request = none;
    } in
    elim (Bool-cases (supported (include_of include))) [
      | inl good ↦ inl (
        good,
        ap (with_depth depth) (include_tokens-asked (include_of include) empty good)
            ∙ with_depth-ok depth (asked (include_of include) empty),
      )
      | inr bad ↦
          let (text, e) = include_tokens-refused (include_of include) empty bad in
          inr (bad, text, ap (with_depth depth) e ∙ with_depth-err depth (other text))
    ]
