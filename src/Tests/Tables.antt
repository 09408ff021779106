-- ===== src/Tests/Tables.antt =====
-- Tables of three focuses and two goals, one a page.
use focus_flow.Common.{refl, String, Option, none, [], ◌∷◌, arith}
use focus_flow.Model.{Uuid}
use focus_flow.Model.Int.{pos}
use focus_flow.Model.{primary}
use focus_flow.Postgres.Rows.{FocusGoalRow}
use focus_flow.Postgres.Sql.{Db}
use focus_flow.Postgres.Walk.{CursorText}
use focus_flow.Postgres.Listings.{ListsAll, follow_pages-listings}
use focus_flow.Tests.Rows.{row, tables, db}
use focus_flow.Tests.Sample.{text, user}
use focus_flow.Tests.Codecs.{parse_text, parse_text_lem}

abbrev longer_text : Uuid → String
longer_text n = String.◌∷◌ "a" (text n)

abbrev parse_longer : String → Option Uuid
parse_longer String.[] = none
parse_longer (String.◌∷◌ c s) = parse_text s

longer-CursorText : CursorText longer_text parse_longer
longer-CursorText = record { full = λ id. refl; read = parse_text_lem }

abbrev goal_row : Uuid → FocusGoalRow
goal_row id = record {
  id = id;
  focus_object_id = 1;
  goal_type = primary;
  description = "goal";
  status_override = none;
  created_at = 0;
  updated_at = 0;
  finished_at = none;
}

abbrev with_goals : Db
with_goals = record db {
  tables = record tables { focus_goal = (5, goal_row 5) ∷ (4, goal_row 4) ∷ [] };
}

follow_pages-listings_example :
    ListsAll longer_text parse_longer longer-CursorText with_goals (λ n. refl) user 1 (pos 1) 4
follow_pages-listings_example =
    follow_pages-listings longer_text parse_longer longer-CursorText with_goals (λ n. refl) user 1
      (row 1 none) (pos 1) 4 refl
      (((λ e. omega arith), ((λ e. omega arith), tt)), (((λ e. omega arith), tt), (tt, tt)))
      (((λ e. omega arith), tt), (tt, tt)) (omega arith) (omega arith)
