-- ===== src/Postgres/Calls/Runs.antt =====
-- Runs of the methods on focuses without faults, step by step.
use focus_flow.Common.{
  ℕ, ◌+◌, ◌≡◌, ap, ◌∙◌, inl, inr, true, none, some, arith, lookup, insert, contains, String,
  eq-cases, Option-cases,
}
use focus_flow.Storage.{Outcome, ok, err, not_found, invalid_hierarchy}
use focus_flow.Forest.{IsForest}
use focus_flow.Model.{Uuid}
use focus_flow.Postgres.{FocusObjectRow, focus_from_row}
use focus_flow.Postgres.Schema.{not_empty, event_checks}
use focus_flow.Postgres.Sql.{
  Tables, Db, reply, tick, pure, raise, ◌>>=◌, now, new_id, answer, as_it_is, map_not_found,
  guarded,
}
use focus_flow.Postgres.Sql.Quiet.{Quiet, statement-Quiet, resume}
use focus_flow.Postgres.Descent.{hierarchy}
use focus_flow.Postgres.Statements.{select_focus, select_below, insert_event_row}
use focus_flow.Postgres.GoalStore.{event_row, get_focus_base, insert_event}
use focus_flow.Postgres.FocusStore.{ensure_not_below, ensure_can_move_focus}
use focus_flow.Postgres.FocusStore.Move.{select_below-Answers}

-- No event has an identifier that may be drawn.
abbrev pub FreshEvents : Db → Type 0
FreshEvents db = (n : ℕ) → lookup (db.outside.ids n) db.tables.focus_event ≡ none

module _ (db : Db) (quiet : Quiet db) where
  pub get_focus_base_missing :
      (id : Uuid)
      → lookup id db.tables.focus_object ≡ none
      → get_focus_base id db ≡ (err not_found, tick db)
  unfolding get_focus_base select_focus ◌>>=◌ pure
  get_focus_base_missing id missing =
      ground (arith, statement-Quiet map_not_found (select_focus id) db quiet)

  pub get_focus_base_found :
      (id : Uuid) (row : FocusObjectRow)
      → lookup id db.tables.focus_object ≡ some row
      → get_focus_base id db ≡ (ok (focus_from_row row), tick db)
  unfolding get_focus_base select_focus ◌>>=◌ pure
  get_focus_base_found id row found =
      ground (arith, statement-Quiet map_not_found (select_focus id) db quiet)

  -- The tables with an event more.
  abbrev pub with_event : Uuid → String → Tables
  with_event id kind = record db.tables {
    focus_event =
        insert (db.outside.ids db.ticks)
          (event_row (db.outside.ids db.ticks) (db.outside.times (db.ticks + 1)) (some id) none
            kind)
          db.tables.focus_event;
  }

  insert_event_row_runs :
      (id : Uuid) (kind : String)
      → contains id db.tables.focus_object ≡ true
      → not_empty kind ≡ true
      → FreshEvents db
      → insert_event_row
          (event_row
            (db.outside.ids db.ticks)
            (db.outside.times (db.ticks + 1))
            (some id)
            none
            kind)
          db.tables
        ≡ (reply tt, with_event id kind)
  unfolding insert_event_row guarded event_checks
  insert_event_row_runs id kind there named fresh = ground (arith, fresh db.ticks)

  pub insert_event_runs :
      (id : Uuid) (kind : String)
      → contains id db.tables.focus_object ≡ true
      → not_empty kind ≡ true
      → FreshEvents db
      → insert_event (some id) none kind db
        ≡ (ok tt, resume (with_event id kind) (db.ticks + 1 + 1 + 1) db.outside)
  unfolding insert_event ◌>>=◌ new_id now
  insert_event_runs id kind there named fresh =
      statement-Quiet as_it_is
        (insert_event_row (
          event_row (db.outside.ids db.ticks) (db.outside.times (db.ticks + 1)) (some id) none
            kind))
        (tick (tick db)) quiet
      ∙ ap (λ r. (answer as_it_is r.0, record (tick (tick (tick db))) { tables = r.1 }))
          (insert_event_row_runs id kind there named fresh)

  -- The checks of a move leave the tables, and go on with the same sequences.
  pub ensure_can_move_focus_runs :
      (id parent : Uuid)
      → IsForest (hierarchy db.tables.focus_object)
      → (o : Outcome (Unit {0})) × (n : ℕ) × (ensure_can_move_focus id parent db
          ≡ (o, resume db.tables n db.outside))
  unfolding ensure_can_move_focus ensure_not_below get_focus_base select_focus ◌>>=◌ pure raise
  ensure_can_move_focus_runs id parent forest = elim (eq-cases id parent) [
    | inl same ↦ (err invalid_hierarchy, db.ticks, ground arith)
    | inr differ ↦ elim (select_below-Answers db.tables id parent forest differ) [
      | inl (e, b) ↦ (
        err invalid_hierarchy,
        db.ticks + 1,
        ground (arith, statement-Quiet as_it_is (select_below id parent) db quiet),
      )
      | inr (e, out) ↦ elim (Option-cases (lookup parent db.tables.focus_object)) [
        | inl gone ↦ (
          err not_found,
          db.ticks + 1 + 1,
          ground (
            arith,
            statement-Quiet as_it_is (select_below id parent) db quiet,
            statement-Quiet map_not_found (select_focus parent) (tick db) quiet,
          ),
        )
        | inr (row, found) ↦ (
          ok tt,
          db.ticks + 1 + 1,
          ground (
            arith,
            statement-Quiet as_it_is (select_below id parent) db quiet,
            statement-Quiet map_not_found (select_focus parent) (tick db) quiet,
          ),
        )
      ]
    ]
  ]
