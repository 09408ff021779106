-- ===== src/Api/Served/Missing.antt =====
-- Requests for what is not there.
use focus_flow.Common.{◌≡◌, none, some, lookup}
use focus_flow.Model
use focus_flow.Model.{Uuid}
use focus_flow.Fake.State.{Store}
use focus_flow.Fake.Focuses
use focus_flow.Fake.Goals
use focus_flow.Api.Outgoing
use focus_flow.Api.User
use focus_flow.Api.User.{Reply}
use focus_flow.Api.Served.{
  Request, list_flows, create_flow, create_focus, delete_focus, get_focus, update_focus,
  list_focus_children, list_focus_goals, create_goal, delete_goal, get_goal, update_goal,
  link_goal_focus, unlink_goal_focus,
}

-- The focus or the goal of the path is not there, or the parent of a new focus.
abbrev pub Misses : Request → Store → Type 0
Misses (list_flows limit cursor include depth) store = ⊥
Misses (create_flow body) store = ⊥
Misses (create_focus body) store =
    (p : Uuid) × (body.parent_id ≡ some p) × (lookup p store.focuses ≡ none)
Misses (delete_focus focus) store = lookup focus store.focuses ≡ none
Misses (get_focus focus include depth) store = lookup focus store.focuses ≡ none
Misses (update_focus focus body) store = lookup focus store.focuses ≡ none
Misses (list_focus_children focus limit cursor include depth) store =
    lookup focus store.focuses ≡ none
Misses (list_focus_goals focus limit cursor) store = lookup focus store.focuses ≡ none
Misses (create_goal focus body) store = lookup focus store.focuses ≡ none
Misses (delete_goal goal) store = lookup goal store.goals ≡ none
Misses (get_goal goal) store = lookup goal store.goals ≡ none
Misses (update_goal goal body) store = lookup goal store.goals ≡ none
Misses (link_goal_focus goal body) store = lookup goal store.goals ≡ none
Misses (unlink_goal_focus goal focus) store = lookup goal store.goals ≡ none
