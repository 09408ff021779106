-- ===== src/Api/Wire.antt =====
-- backend/internal/api/generated/openapi.gen.go: the data of the HTTP contract that the mappers
-- read and make. An enumeration is a string type in Go, so a value need not be a member.
use focus_flow.Common.{ℕ, Bool, String, Option, List}
use focus_flow.Model.{Uuid, Time}

pub record CreateFlowRequest : Type 0 where
  pub color : Option String
  pub description : Option String
  pub feedback : Option String
  pub name : String
  pub status : Option String
  pub tags : Option (List String)

pub record CreateFocusRequest : Type 0 where
  pub color : Option String
  pub description : Option String
  pub feedback : Option String
  pub name : String
  pub parent_id : Option Uuid
  pub status : Option String
  pub tags : Option (List String)

pub record CreateGoalRequest : Type 0 where
  pub description : String
  pub linked_focus_ids : Option (List Uuid)
  pub status_override : Option String
  pub goal_type : String

pub record UpdateFocusRequest : Type 0 where
  pub clear_fields : Option (List String)
  pub color : Option String
  pub description : Option String
  pub feedback : Option String
  pub name : Option String
  pub parent_id : Option Uuid
  pub status : Option String
  pub tags : Option (List String)

pub record UpdateGoalRequest : Type 0 where
  pub clear_fields : Option (List String)
  pub description : Option String
  pub linked_focus_ids : Option (List Uuid)
  pub status_override : Option String
  pub goal_type : Option String

pub record LinkGoalFocusRequest : Type 0 where
  pub focus_id : Uuid

pub record LoginRequest : Type 0 where
  pub password : String
  pub username : String

pub record User : Type 0 where
  pub id : Uuid
  pub username : String

pub record AuthSession : Type 0 where
  pub expires_at : Time
  pub user : User

pub record ErrorResponse : Type 0 where
  pub code : String
  pub message : String
  pub request_id : Option String

pub record GoalProgress : Type 0 where
  pub done_count : ℕ
  pub linked_count : ℕ
  pub status_counts : List (String × ℕ)
  pub terminal_count : ℕ

pub record Goal : Type 0 where
  pub created_at : Time
  pub description : String
  pub finished_at : Option Time
  pub id : Uuid
  pub linked_focus_ids : List Uuid
  pub owner_focus_id : Uuid
  pub progress : GoalProgress
  pub status_override : Option String
  pub goal_type : String
  pub updated_at : Time

-- The fields of `Focus` but its children.
pub record FocusFields : Type 0 where
  pub color : Option String
  pub created_at : Time
  pub description : Option String
  pub feedback : Option String
  pub finished_at : Option Time
  pub goals : List Goal
  pub id : Uuid
  pub name : String
  pub parent_id : Option Uuid
  pub status : String
  pub tags : List String
  pub updated_at : Time

mutual
  pub data Focus : Type 0 where
    node : FocusFields → Foci → Focus

  pub data Foci : Type 0 where
    nil : Foci
    cons : Focus → Foci → Foci

pub record FocusPage : Type 0 where
  pub count : ℕ
  pub has_more : Bool
  pub items : List Focus
  pub next_cursor : Option String

pub record GoalPage : Type 0 where
  pub count : ℕ
  pub has_more : Bool
  pub items : List Goal
  pub next_cursor : Option String
