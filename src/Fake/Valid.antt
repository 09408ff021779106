-- ===== src/Fake/Valid.antt =====
-- The well-formedness of the store in memory, and the store that `New` makes.
pub mod Put
pub mod Methods
use focus_flow.Common.{ℕ, ◌≡◌, Option, none, some, [], ◌∷◌, Map, lookup, Distinct}
use focus_flow.Forest.{Parents, IsForest}
use focus_flow.Model.{Uuid, Time, FocusFields, Goal, active, planned, primary}
use focus_flow.Fake.State.{Store, zero_focus, zero_goal}

-- The hierarchy that a map of focuses describes.
abbrev parent_of : Option FocusFields → Option (Option Uuid)
parent_of none = none
parent_of (some focus) = some focus.parent_id

abbrev pub parents : Map FocusFields → Parents
parents focuses x = parent_of (lookup x focuses)

-- Keys are unique and are the identifiers; every parent exists and the hierarchy has no cycle;
-- every goal's owner exists.
pub record IsValid (store : Store) : Type 0 where
  pub focus_keys : Distinct store.focuses
  pub goal_keys : Distinct store.goals
  pub focus_ids : (k : Uuid) (f : FocusFields) → lookup k store.focuses ≡ some f → f.id ≡ k
  pub goal_ids : (k : Uuid) (g : Goal) → lookup k store.goals ≡ some g → g.id ≡ k
  pub forest : IsForest (parents store.focuses)
  pub owners :
      (k : Uuid) (g : Goal)
      → lookup k store.goals ≡ some g
      → ¬ (lookup g.owner_focus_id store.focuses ≡ none)

abbrev pub root_id : Uuid
root_id = 0x018f6f1f9a7b70008000000000000100

abbrev pub child_id : Uuid
child_id = 0x018f6f1f9a7b70008000000000000101

abbrev pub goal_id : Uuid
goal_id = 0x018f6f1f9a7b70008000000000000200

-- 2026-09-08 12:00:00 UTC
abbrev seed_time : Time
seed_time = 1788868800000000000

-- `New`, with what `seed` puts in.
abbrev pub seed : Store
seed = record {
  focuses =
      (
        root_id,
        record zero_focus {
          id = root_id;
          name = "Mock flow";
          status = active;
          tags = "mock" ∷ [];
          created_at = seed_time;
          updated_at = seed_time;
        },
      )
      ∷ (
        child_id,
        record zero_focus {
          id = child_id;
          parent_id = some root_id;
          name = "Mock child focus";
          status = planned;
          tags = "mock" ∷ [];
          created_at = seed_time;
          updated_at = seed_time;
        },
      )
      ∷ [];
  goals =
      (
        goal_id,
        record zero_goal {
          id = goal_id;
          owner_focus_id = root_id;
          goal_type = primary;
          description = "Mock goal";
          linked_focus_ids = child_id ∷ [];
          created_at = seed_time;
          updated_at = seed_time;
        },
      )
      ∷ [];
}
