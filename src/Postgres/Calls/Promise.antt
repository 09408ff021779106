-- ===== src/Postgres/Calls/Promise.antt =====
-- The PostgreSQL store does what the abstract machine of Forest/Promise promises, when no statement
-- fails, and so answers as the store in memory.
use focus_flow.Common.{
  ◌≡◌, sym, ap, subst, inl, inr, Option, none, some, arith, lookup, String, Option-cases,
}
use focus_flow.Storage.{err, not_found}
use focus_flow.Forest.{Parents}
use focus_flow.Forest.Promise.{Request, move, remove, Step, no_object, nothing_there}
use focus_flow.Model.{Uuid, FocusFields, move_focus}
use focus_flow.Postgres.{FocusObjectRow}
use focus_flow.Postgres.Sql.{Db, Action, ◌>>=◌, continue}
use focus_flow.Postgres.Sql.Quiet.{Quiet}
use focus_flow.Postgres.Descent.{hierarchy}
use focus_flow.Postgres.GoalStore.{get_focus_base}
use focus_flow.Postgres.FocusStore
use focus_flow.Postgres.FocusStore.{check_parent, ensure_can_move_focus, save_focus}
use focus_flow.Postgres.Sound.{IsSound}
use focus_flow.Postgres.Calls.{run, forget}
use focus_flow.Postgres.Calls.Runs.{FreshEvents, get_focus_base_missing}
use focus_flow.Fake.Calls.Promise.{call_of}
use focus_flow.Postgres.Calls.Moves.{Leaves, update_focus_runs}
use focus_flow.Postgres.Calls.Deletions.{delete_focus_runs}

module _ (db : Db) (v : IsSound db.tables) (quiet : Quiet db) (fresh : FreshEvents db) where
  abbrev up : Parents
  up = hierarchy db.tables.focus_object

  -- A request for a focus that is not there.
  missing_runs :
      {A : Type 0} (r : Request) (id : Uuid) (rest : FocusFields → Action A)
      → up id ≡ none
      → Step up r (err not_found) up
      → Leaves r db ((get_focus_base id >>= rest) db)
  unfolding ◌>>=◌
  missing_runs r id rest gone step =
      subst (Leaves r db)
        (sym (ap (λ r. continue r.0 rest r.1) (get_focus_base_missing db quiet id (ground arith))))
        step

  module _ (row : FocusObjectRow) (id : Uuid)
      (found : lookup id db.tables.focus_object ≡ some row) where
    own_id : row.id ≡ id
    own_id = v.integral.focus_ids id row found

    own_row : lookup row.id db.tables.focus_object ≡ some row
    own_row = subst (λ k. lookup k db.tables.focus_object ≡ some row) (sym own_id) found

  move-Leaves :
      (user id p : Uuid) → Leaves (move id p) db (FocusStore.update_focus user (move_focus id p) db)
  unfolding FocusStore.update_focus
  move-Leaves user id p = elim (Option-cases (lookup id db.tables.focus_object)) [
    | inl gone ↦ missing_runs (move id p) id _ (ground arith) (no_object (ground arith))
    | inr (row, found) ↦
        subst (λ k. Leaves (move k p) db (FocusStore.update_focus user (move_focus k p) db))
          (own_id row id found)
          (update_focus_runs db v quiet fresh row p (own_row row id found) user)
  ]

  remove-Leaves : (user id : Uuid) → Leaves (remove id) db (FocusStore.delete_focus user id db)
  unfolding FocusStore.delete_focus
  remove-Leaves user id = elim (Option-cases (lookup id db.tables.focus_object)) [
    | inl gone ↦ missing_runs (remove id) id _ (ground arith) (nothing_there (ground arith))
    | inr (row, found) ↦
        subst (λ k. Leaves (remove k) db (FocusStore.delete_focus user k db)) (own_id row id found)
          (delete_focus_runs db v quiet fresh row (own_row row id found) user)
  ]

-- On sound tables, if no statement fails and no event has an identifier that may be drawn,
-- UpdateFocus of the PostgreSQL store with a move under a parent, and DeleteFocus, do what the
-- abstract machine on hierarchies does: a move is answered not found for a focus that is not
-- there, is refused as an invalid hierarchy if the parent lies below the focus, is answered not
-- found if the parent does not exist, and otherwise sets the parent and nothing else; a deletion
-- is answered not found for a focus that is not there, and otherwise removes exactly what lies
-- below it. Both end.
pub run_quiet-Step :
    (id_string : Uuid → String) (parse : String → Option Uuid) (user : Uuid) (r : Request) (db : Db)
    → IsSound db.tables
    → Quiet db
    → FreshEvents db
    → Step
        (hierarchy db.tables.focus_object)
        r
        (run id_string parse user (call_of r) db).0
        (hierarchy (run id_string parse user (call_of r) db).1.tables.focus_object)
unfolding run forget ◌>>=◌
run_quiet-Step id_string parse user (move id p) db v quiet fresh =
    move-Leaves db v quiet fresh user id p
run_quiet-Step id_string parse user (remove id) db v quiet fresh =
    remove-Leaves db v quiet fresh user id
