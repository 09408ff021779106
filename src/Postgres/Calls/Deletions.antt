-- ===== src/Postgres/Calls/Deletions.antt =====
-- A deletion on the PostgreSQL store, when no statement fails.
use focus_flow.Common.{◌+◌, ◌≡◌, refl, sym, ap, ◌∙◌, subst, none, some, arith, lookup}
use focus_flow.Storage.{ok}
use focus_flow.Forest.Promise.{remove, removed}
use focus_flow.Model.{Uuid}
use focus_flow.Postgres.{FocusObjectRow}
use focus_flow.Postgres.Sql.{Db, Action, tick, pure, statement, ◌>>=◌, continue, answer, as_it_is}
use focus_flow.Postgres.Sql.Quiet.{Quiet, statement-Quiet, resume}
use focus_flow.Postgres.Statements.{delete_focus_row, remove_rows}
use focus_flow.Postgres.GoalStore.{insert_event, check_affected}
use focus_flow.Postgres.FocusStore
use focus_flow.Postgres.FocusStore.{check_parent, ensure_can_move_focus, save_focus}
use focus_flow.Postgres.Sound.{IsSound}
use focus_flow.Postgres.Sound.Delete.{delete_focus_row-Deletes, Marks-Prunes}
use focus_flow.Postgres.Calls.Runs.{
  FreshEvents, get_focus_base_found, with_event, insert_event_runs,
}
use focus_flow.Postgres.Calls.Moves.{Leaves}

module _ (db : Db) (v : IsSound db.tables) (quiet : Quiet db) (fresh : FreshEvents db)
    (row : FocusObjectRow) (found : lookup row.id db.tables.focus_object ≡ some row) where
  delete_event_runs : insert_event (some row.id) none "focus.deleted" (tick db) ≡ (
    ok tt,
    resume
        (with_event (tick db) quiet row.id "focus.deleted")
        (db.ticks + 1 + 1 + 1 + 1)
        db.outside,
  )
  delete_event_runs =
      insert_event_runs (tick db) quiet row.id "focus.deleted" (ground arith) refl fresh

  -- The state that the statement of DeleteFocus runs on.
  abbrev noted : Db
  noted =
      resume (with_event (tick db) quiet row.id "focus.deleted") (db.ticks + 1 + 1 + 1 + 1)
        db.outside

  pub delete_focus_runs :
      (user : Uuid) → Leaves (remove row.id) db (FocusStore.delete_focus user row.id db)
  unfolding FocusStore.delete_focus ◌>>=◌ remove_rows pure
  delete_focus_runs user =
      let (ds, marks, e) = delete_focus_row-Deletes noted.tables row.id (λ gone. ground arith) in
      subst (Leaves (remove row.id) db)
        (sym (
          ap
            (λ r.
              continue r.0
                (λ _. insert_event (some row.id) none "focus.deleted" >>= λ _. after_note) r.1)
            (get_focus_base_found db quiet row.id row found)
          ∙ ap (λ r. continue r.0 (λ _. after_note) r.1) delete_event_runs
          ∙ ap (λ r. continue r.0 check_affected r.1)
              (statement-Quiet as_it_is (delete_focus_row row.id) noted quiet)
          ∙ ap
              (λ r.
                continue (answer as_it_is r.0) check_affected
                  (record (tick noted) { tables = r.1 }))
              e))
        (removed (λ gone. ground arith) (Marks-Prunes db.tables.focus_object row.id ds marks))
    where
      after_note : Action (Unit {0})
      after_note = statement as_it_is (delete_focus_row row.id) >>= check_affected
