-- ===== src/Postgres/Schema.antt =====
-- backend/migrations/000001_initial_schema.sql: the constraints of the tables.
use Prim.Native.Char.{code}
use focus_flow.Common.{
  String, Bool, true, false, not, ◌&&◌, ◌||◌, Option, none, some, List, [], ◌∷◌, Map, contains,
  ◌==◌, str_eq, if◌then◌else◌,
}
use focus_flow.Model.{
  Uuid, idea, planned, active, paused, waiting, done, cancelled, primary, secondary,
}
use focus_flow.Postgres.{FocusObjectRow}
use focus_flow.Postgres.Rows.{FocusGoalRow, FocusEventRow}

-- `length(btrim(s)) > 0`: a character that is not a space is left.
abbrev pub not_empty : String → Bool
not_empty String.[] = false
not_empty (String.◌∷◌ c s) = let rest = not_empty s in if code c == 32 then rest else true

abbrev pub one_of : List String → String → Bool
one_of [] s = false
one_of (t ∷ ts) s = str_eq s t || one_of ts s

-- The lists of focus_object_status_check and focus_goal_type_check.
abbrev pub statuses : List String
statuses = idea ∷ planned ∷ active ∷ paused ∷ waiting ∷ done ∷ cancelled ∷ []

abbrev pub goal_types : List String
goal_types = primary ∷ secondary ∷ []

abbrev differs : Uuid → Option Uuid → Bool
differs id none = true
differs id (some parent) = not (parent == id)

abbrev null_or_status : Option String → Bool
null_or_status none = true
null_or_status (some status) = one_of statuses status

-- The CHECK constraints of focus_object, focus_goal and focus_event.
unfoldable pub focus_checks : FocusObjectRow → Bool
focus_checks row = not_empty row.name && one_of statuses row.status && differs row.id row.parent_id

unfoldable pub goal_checks : FocusGoalRow → Bool
goal_checks row =
    one_of goal_types row.goal_type
    && not_empty row.description
    && null_or_status row.status_override

unfoldable pub event_checks : FocusEventRow → Bool
event_checks row = not_empty row.event_type && not_empty row.source

-- A foreign key that may be NULL.
abbrev pub refers : {V : Type 0} → Option Uuid → Map V → Bool
refers none rows = true
refers (some id) rows = contains id rows
