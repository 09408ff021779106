-- ===== src/Tests/Sample.antt =====
-- A small store, a text for identifiers, and what a call takes from outside.
use focus_flow.Common.{
  zero, suc, ◌≡◌, refl, String, true, false, none, some, [], ◌∷◌, arith, ltb, str_lt, eq-cases, inl,
  inr,
}
use focus_flow.Forest.{root, child, IsForest}
use focus_flow.Model.{
  Uuid, FocusQuery, UpdateFocus, NullableUpdate, active, done, cancelled, primary,
}
use focus_flow.Model.Int.{pos}
use focus_flow.Fake.State.{Store, Env, zero_focus, zero_goal}
use focus_flow.Fake.Valid.{parents, IsValid}
use focus_flow.Fake.Listing.{UuidText}

-- So many letters.
abbrev pub text : Uuid → String
text zero = String.[]
text (suc n) = String.◌∷◌ "a" (text n)

text_order : (a b : Uuid) → str_lt (text a) (text b) ≡ ltb a b
text_order zero zero = refl
text_order zero (suc b) = ground arith
text_order (suc a) zero = ground arith
text_order (suc a) (suc b) = ground (arith, text_order a b)

pub text-UuidText : UuidText text
text-UuidText = record { order = text_order }

abbrev pub user : Uuid
user = 9

abbrev pub env : Env
env = record { new_id = 6; now = 1000 }

-- A flow 1 with the child 2 and the grandchild 3; 4 is a flow of its own.
abbrev pub sample : Store
sample = record {
  focuses =
      (1, record zero_focus { id = 1; name = "flow" })
      ∷ (2, record zero_focus { id = 2; parent_id = some 1; status = done })
      ∷ (3, record zero_focus { id = 3; parent_id = some 2; status = cancelled })
      ∷ (4, record zero_focus { id = 4; status = active })
      ∷ [];
  goals =
      (
        5,
        record zero_goal {
          id = 5;
          owner_focus_id = 4;
          goal_type = primary;
          linked_focus_ids = 2 ∷ 4 ∷ 8 ∷ 3 ∷ [];
        },
      )
      ∷ [];
}

sample-IsForest : IsForest (parents sample.focuses)
sample-IsForest x q h = elim (eq-cases x 1) [
  | inl same ↦ (zero, root (ground arith))
  | inr a ↦ elim (eq-cases x 2) [
    | inl same ↦ (suc zero, child 1 (ground arith) (root refl))
    | inr b ↦ elim (eq-cases x 3) [
      | inl same ↦ (suc (suc zero), child 2 (ground arith) (child 1 refl (root refl)))
      | inr c ↦ elim (eq-cases x 4) [
        | inl same ↦ (zero, root (ground arith))
        | inr d ↦ absurd (ground arith)
      ]
    ]
  ]
]

pub sample-IsValid : IsValid sample
sample-IsValid = record {
  focus_keys = (refl, (refl, (refl, (refl, tt))));
  goal_keys = (refl, tt);
  focus_ids = λ k f e. ground arith;
  goal_ids = λ k g e. ground arith;
  forest = sample-IsForest;
  owners = λ k g e gone. ground arith;
}

abbrev pub query : FocusQuery
query = record {
  id = 1;
  include_goals = true;
  include_specs = false;
  descendant_depth = pos 2;
  children_page_request = none;
}

abbrev pub keep {ℓ} : {A : Type ℓ} → NullableUpdate A
keep = record { set = false; value = none }

-- To move the flow 1 below its grandchild.
abbrev pub to_grandchild : UpdateFocus
to_grandchild = record {
  id = 1;
  parent_id = record { set = true; value = some 3 };
  name = none;
  status = none;
  tags = none;
  description = keep;
  feedback = keep;
  color = keep;
}

-- To move the focus 3 below the flow 4.
abbrev pub to_flow : UpdateFocus
to_flow = record to_grandchild { id = 3; parent_id = record { set = true; value = some 4 } }
