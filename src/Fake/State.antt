-- ===== src/Fake/State.antt =====
-- backend/internal/storage/fake/store.go: the state of the store and the shape of its methods.
--
-- Every method holds `store.mu` from its first line to its return, so a history of the store is
-- a sequence of whole calls. A stored focus has no children (they are attached to what a method
-- returns), so the map holds the other fields.
use focus_flow.Common.{Option, none, some, [], ◌++◌, Map}
use focus_flow.Storage.{Outcome}
use focus_flow.Model.{Uuid, Time, FocusFields, Goal, GoalProgress}

pub record Store : Type 0 where
  pub focuses : Map FocusFields
  pub goals : Map Goal

-- What a call takes from outside: the identifier that `newID` draws, and the time of `store.now`.
pub record Env : Type 0 where
  pub new_id : Uuid
  pub now : Time

-- A method returns its result and the store that it leaves.
abbrev pub Method : Type 0 → Type 0
Method A = Store → Outcome A × Store

-- The zero values that reading a missing key gives.
abbrev pub zero_focus : FocusFields
zero_focus = record {
  id = 0;
  parent_id = none;
  name = "";
  status = "";
  tags = [];
  description = none;
  feedback = none;
  color = none;
  goals = [];
  specifications = [];
  created_at = 0;
  updated_at = 0;
  finished_at = none;
}

abbrev pub no_progress : GoalProgress
no_progress = record { linked_count = 0; terminal_count = 0; done_count = 0; status_counts = [] }

abbrev pub zero_goal : Goal
zero_goal = record {
  id = 0;
  owner_focus_id = 0;
  goal_type = "";
  description = "";
  status_override = none;
  linked_focus_ids = [];
  progress = no_progress;
  created_at = 0;
  updated_at = 0;
  finished_at = none;
}

-- `m[k]`
abbrev pub get_or_zero {ℓ} : {V : Type ℓ} → V → Option V → V
get_or_zero z none = z
get_or_zero z (some v) = v

-- The slices of a clone are new, with the same elements.
abbrev pub clone_focus : FocusFields → FocusFields
clone_focus value = record value {
  tags = [] ++ value.tags;
  goals = [] ++ value.goals;
  specifications = [] ++ value.specifications;
}

abbrev pub clone_goal : Goal → Goal
clone_goal value = record value { linked_focus_ids = [] ++ value.linked_focus_ids }
