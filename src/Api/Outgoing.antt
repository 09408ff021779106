-- ===== src/Api/Outgoing.antt =====
-- backend/internal/api/model/mappers.go: from the internal models to the HTTP contract. A conversion
-- between string types keeps the string.
use focus_flow.Common.{◌++◌, [], map}
use focus_flow.Model
use focus_flow.Api.Wire

-- GoalProgressFromInternal: the loop copies the map.
abbrev pub goal_progress_from_internal : Model.GoalProgress → Wire.GoalProgress
goal_progress_from_internal value = record {
  done_count = value.done_count;
  linked_count = value.linked_count;
  status_counts = map (λ (status, count). (status, count)) value.status_counts;
  terminal_count = value.terminal_count;
}

abbrev pub goal_from_internal : Model.Goal → Wire.Goal
goal_from_internal value = record {
  created_at = value.created_at;
  description = value.description;
  finished_at = value.finished_at;
  id = value.id;
  linked_focus_ids = map (λ id. id) value.linked_focus_ids;
  owner_focus_id = value.owner_focus_id;
  progress = goal_progress_from_internal value.progress;
  status_override = value.status_override;
  goal_type = value.goal_type;
  updated_at = value.updated_at;
}

abbrev pub focus_fields_from_internal : Model.FocusFields → Wire.FocusFields
focus_fields_from_internal value = record {
  color = value.color;
  created_at = value.created_at;
  description = value.description;
  feedback = value.feedback;
  finished_at = value.finished_at;
  goals = map goal_from_internal value.goals;
  id = value.id;
  name = value.name;
  parent_id = value.parent_id;
  status = value.status;
  tags = [] ++ value.tags;
  updated_at = value.updated_at;
}

-- FocusFromInternal, and its loop over the children.
unfoldable mutual
  pub focus_from_internal : Model.Focus → Wire.Focus
  focus_from_internal (Model.node value below) =
      Wire.node (focus_fields_from_internal value) (foci_from_internal below)

  pub foci_from_internal : Model.Foci → Wire.Foci
  foci_from_internal Model.nil = Wire.nil
  foci_from_internal (Model.cons child rest) =
      Wire.cons (focus_from_internal child) (foci_from_internal rest)

abbrev pub user_from_internal : Model.User → Wire.User
user_from_internal value = record { id = value.id; username = value.username }

abbrev pub session_from_internal : Model.Session → Wire.AuthSession
session_from_internal value = record {
  expires_at = value.expires_at;
  user = user_from_internal value.user;
}

abbrev pub focus_page_from_internal : Model.Page Model.Focus → Wire.FocusPage
focus_page_from_internal value = record {
  count = value.count;
  has_more = value.has_more;
  items = map focus_from_internal value.items;
  next_cursor = value.next_cursor;
}

abbrev pub goal_page_from_internal : Model.Page Model.Goal → Wire.GoalPage
goal_page_from_internal value = record {
  count = value.count;
  has_more = value.has_more;
  items = map goal_from_internal value.items;
  next_cursor = value.next_cursor;
}
