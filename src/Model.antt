-- ===== src/Model.antt =====
-- backend/internal/model: the data that services, storage and the API share.
--
-- A `uuid.UUID` is the number that its sixteen bytes spell, and `uuid.Nil` is 0. A `time.Time` is
-- the number of nanoseconds since 1970. A pointer that may be nil is an `Option`; a slice is a
-- list, nil and empty alike. `FocusStatus`, `GoalType` and `EventSource` are string types in Go,
-- so a value need not be one of the constants.
pub mod Int
use focus_flow.Common.{ℕ, Bool, true, false, String, Option, none, some, List, [], ◌∷◌, Map}
use Int.{ℤ}

abbrev pub Uuid : Type 0
Uuid = ℕ

abbrev pub nil_id : Uuid
nil_id = 0

abbrev pub Time : Type 0
Time = ℕ

-- update.go
pub record NullableUpdate {ℓ} (A : Type ℓ) : Type ℓ where
  pub set : Bool
  pub value : Option A

-- pagination.go
pub record PageRequest : Type 0 where
  pub limit : ℤ
  pub cursor : Option String

pub record Page {ℓ} (A : Type ℓ) : Type ℓ where
  pub items : List A
  pub count : ℕ
  pub next_cursor : Option String
  pub has_more : Bool

-- auth.go
pub record User : Type 0 where
  pub id : Uuid
  pub username : String

pub record Session : Type 0 where
  pub user : User
  pub expires_at : Time

pub record LoginCredentials : Type 0 where
  pub username : String
  pub password : String

-- focus.go
abbrev pub FocusStatus : Type 0
FocusStatus = String

abbrev pub idea : FocusStatus
idea = "idea"

abbrev pub planned : FocusStatus
planned = "planned"

abbrev pub active : FocusStatus
active = "active"

abbrev pub paused : FocusStatus
paused = "paused"

abbrev pub waiting : FocusStatus
waiting = "waiting"

abbrev pub done : FocusStatus
done = "done"

abbrev pub cancelled : FocusStatus
cancelled = "cancelled"

-- goal.go
abbrev pub GoalType : Type 0
GoalType = String

abbrev pub primary : GoalType
primary = "primary"

abbrev pub secondary : GoalType
secondary = "secondary"

pub record GoalProgress : Type 0 where
  pub linked_count : ℕ
  pub terminal_count : ℕ
  pub done_count : ℕ
  pub status_counts : List (FocusStatus × ℕ)

pub record Goal : Type 0 where
  pub id : Uuid
  pub owner_focus_id : Uuid
  pub goal_type : GoalType
  pub description : String
  pub status_override : Option FocusStatus
  pub linked_focus_ids : List Uuid
  pub progress : GoalProgress
  pub created_at : Time
  pub updated_at : Time
  pub finished_at : Option Time

pub record CreateGoal : Type 0 where
  pub owner_focus_id : Uuid
  pub goal_type : GoalType
  pub description : String
  pub status_override : Option FocusStatus
  pub linked_focus_ids : List Uuid

pub record UpdateGoal : Type 0 where
  pub id : Uuid
  pub goal_type : Option GoalType
  pub description : Option String
  pub status_override : NullableUpdate FocusStatus
  pub linked_focus_ids : Option (List Uuid)

pub record GoalFocusLink : Type 0 where
  pub goal_id : Uuid
  pub focus_id : Uuid

-- specification.go
pub record Specification : Type 0 where
  pub id : Uuid
  pub focus_id : Uuid
  pub spec_type : String
  pub schema_version : ℤ
  pub raw : String
  pub created_at : Time
  pub updated_at : Time

-- The fields of `Focus` but its children.
pub record FocusFields : Type 0 where
  pub id : Uuid
  pub parent_id : Option Uuid
  pub name : String
  pub status : FocusStatus
  pub tags : List String
  pub description : Option String
  pub feedback : Option String
  pub color : Option String
  pub goals : List Goal
  pub specifications : List Specification
  pub created_at : Time
  pub updated_at : Time
  pub finished_at : Option Time

-- A focus holds its children: `node` has the other fields and the slice `Children`.
mutual
  pub data Focus : Type 0 where
    node : FocusFields → Foci → Focus

  pub data Foci : Type 0 where
    nil : Foci
    cons : Focus → Foci → Foci

abbrev pub fields : Focus → FocusFields
fields (node f children) = f

abbrev pub children : Focus → Foci
children (node f below) = below

abbrev pub to_foci : List Focus → Foci
to_foci [] = nil
to_foci (f ∷ fs) = cons f (to_foci fs)

pub record FocusQuery : Type 0 where
  pub id : Uuid
  pub include_goals : Bool
  pub include_specs : Bool
  pub descendant_depth : ℤ
  pub children_page_request : Option PageRequest

pub record CreateFocus : Type 0 where
  pub parent_id : Option Uuid
  pub name : String
  pub status : Option FocusStatus
  pub tags : List String
  pub description : Option String
  pub feedback : Option String
  pub color : Option String

pub record UpdateFocus : Type 0 where
  pub id : Uuid
  pub parent_id : NullableUpdate Uuid
  pub name : Option String
  pub status : Option FocusStatus
  pub tags : Option (List String)
  pub description : NullableUpdate String
  pub feedback : NullableUpdate String
  pub color : NullableUpdate String

-- The input that moves a focus and leaves its other fields.
abbrev pub move_focus : Uuid → Uuid → UpdateFocus
move_focus id parent = record {
  id = id;
  parent_id = record { set = true; value = some parent };
  name = none;
  status = none;
  tags = none;
  description = record { set = false; value = none };
  feedback = record { set = false; value = none };
  color = record { set = false; value = none };
}
