-- ===== src/Postgres/Rows.antt =====
-- backend/internal/storage/postgres: the other row models of models.go and their conversions in
-- mappers.go. A pointer conversion keeps the value: `focusIDPtr`, `uuidPtr`, `focusStatusPtr` and
-- `statusStringPtr` are identities of the model.
use focus_flow.Common.{String, Option, []}
use focus_flow.Model.{Uuid, Time, FocusFields, Goal, Specification}
use focus_flow.Model.Int.{ℤ}
use focus_flow.Fake.State.{no_progress}
use focus_flow.Postgres.{FocusObjectRow}

pub record FocusGoalRow : Type 0 where
  pub id : Uuid
  pub focus_object_id : Uuid
  pub goal_type : String
  pub description : String
  pub status_override : Option String
  pub created_at : Time
  pub updated_at : Time
  pub finished_at : Option Time

pub record FocusGoalLinkRow : Type 0 where
  pub goal_id : Uuid
  pub focus_object_id : Uuid

pub record FocusSpecificationRow : Type 0 where
  pub id : Uuid
  pub focus_object_id : Uuid
  pub spec_type : String
  pub schema_version : ℤ
  pub raw : String
  pub created_at : Time
  pub updated_at : Time

pub record FocusEventRow : Type 0 where
  pub id : Uuid
  pub focus_object_id : Option Uuid
  pub goal_id : Option Uuid
  pub event_type : String
  pub source : String
  pub raw : String
  pub created_at : Time

-- goalFromRow
abbrev pub goal_from_row : FocusGoalRow → Goal
goal_from_row row = record {
  id = row.id;
  owner_focus_id = row.focus_object_id;
  goal_type = row.goal_type;
  description = row.description;
  status_override = row.status_override;
  linked_focus_ids = [];
  progress = no_progress;
  created_at = row.created_at;
  updated_at = row.updated_at;
  finished_at = row.finished_at;
}

-- specificationFromRow
abbrev pub specification_from_row : FocusSpecificationRow → Specification
specification_from_row row = record {
  id = row.id;
  focus_id = row.focus_object_id;
  spec_type = row.spec_type;
  schema_version = row.schema_version;
  raw = row.raw;
  created_at = row.created_at;
  updated_at = row.updated_at;
}

-- The row that UpdateFocus writes.
abbrev pub row_of_focus : FocusFields → FocusObjectRow
row_of_focus current = record {
  id = current.id;
  parent_id = current.parent_id;
  name = current.name;
  status = current.status;
  tags = current.tags;
  description = current.description;
  feedback = current.feedback;
  color = current.color;
  created_at = current.created_at;
  updated_at = current.updated_at;
  finished_at = current.finished_at;
}
