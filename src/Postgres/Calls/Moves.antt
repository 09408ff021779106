-- ===== src/Postgres/Calls/Moves.antt =====
-- A move on the PostgreSQL store, when no statement fails.
use focus_flow.Common.{
  ℕ, ◌+◌, ◌≡◌, refl, sym, ap, ◌∙◌, subst, inl, inr, true, none, some, arith, lookup, contains,
  lookup-insert, Option-cases,
}
use focus_flow.Storage.{Outcome, ok}
use focus_flow.Forest.{Parents, Below}
use focus_flow.Forest.Order.{Below-self}
use focus_flow.Forest.Promise.{Request, move, Step, into_itself, no_parent, moved}
use focus_flow.Model.{Uuid, Time, Focus, node, nil, move_focus}
use focus_flow.Postgres.{FocusObjectRow, focus_from_row}
use focus_flow.Postgres.Schema.{focus_checks}
use focus_flow.Postgres.Sql.{Tables, Db, tick, pure, ◌>>=◌, continue}
use focus_flow.Postgres.Sql.Quiet.{Quiet, resume}
use focus_flow.Postgres.Descent.{hierarchy}
use focus_flow.Postgres.FocusStore
use focus_flow.Postgres.FocusStore.{check_parent, ensure_can_move_focus, save_focus}
use focus_flow.Postgres.FocusStore.Verdict.{Verdict, ensure_can_move_focus-verdict}
use focus_flow.Postgres.FocusStore.Race
use focus_flow.Postgres.FocusStore.Race.{behind, finish, save_focus-finish}
use focus_flow.Postgres.Sound.{IsSound}
use focus_flow.Postgres.Sound.Focuses.{insert-Reparents}
use focus_flow.Postgres.Calls.Runs.{
  FreshEvents, get_focus_base_found, with_event, insert_event_runs, ensure_can_move_focus_runs,
}

-- What a call answers, and the hierarchy that it leaves.
abbrev pub Leaves : {A : Type 0} → Request → Db → Outcome A × Db → Type 0
Leaves r db result =
    Step (hierarchy db.tables.focus_object) r (continue result.0 (λ _. pure tt) result.1).0
      (hierarchy (continue result.0 (λ _. pure tt) result.1).1.tables.focus_object)

moved_checks :
    (row : FocusObjectRow) (parent : Uuid) (at : Time)
    → focus_checks row ≡ true
    → ¬ (parent ≡ row.id)
    → focus_checks (Race.moved parent at row) ≡ true
unfolding focus_checks
moved_checks row parent at checks differ = ground arith

-- The writes of a move that is allowed.
finish_runs :
    (db : Db) (parent : Uuid) (row : FocusObjectRow)
    → Quiet db
    → FreshEvents db
    → (n : ℕ) × (t : Tables) × (finish
          (Race.moved parent (db.outside.times db.ticks) row)
          (behind db parent row)
        ≡ (
          ok (node (focus_from_row (Race.moved parent (db.outside.times db.ticks) row)) nil),
          resume t n db.outside,
        ))
      × (t.focus_object ≡ (behind db parent row).tables.focus_object)
unfolding ◌>>=◌ pure
finish_runs db parent row quiet fresh = (
  (behind db parent row).ticks + 1 + 1 + 1,
  with_event (behind db parent row) quiet row.id "focus.updated",
  ap
      (λ r.
        continue r.0
          (λ _.
            pure (node (focus_from_row (Race.moved parent (db.outside.times db.ticks) row)) nil))
          r.1)
      (insert_event_runs (behind db parent row) quiet row.id "focus.updated"
        (ground (
          arith,
          lookup-insert row.id row.id (Race.moved parent (db.outside.times db.ticks) row)
              db.tables.focus_object,
        ))
        refl fresh),
  refl,
)

module _ (db : Db) (v : IsSound db.tables) (quiet : Quiet db) (fresh : FreshEvents db) where
  abbrev up : Parents
  up = hierarchy db.tables.focus_object

  -- A move of a focus that is there, by the verdict of the check.
  module _ (row : FocusObjectRow) (p : Uuid)
      (found : lookup row.id db.tables.focus_object ≡ some row) where
    pub there : ¬ (up row.id ≡ none)
    there gone = ground arith

    saved :
        (n : ℕ)
        → ¬ Below up row.id p
        → ¬ (up p ≡ none)
        → Leaves
            (move row.id p)
            db
            (save_focus (move_focus row.id p) (focus_from_row row) (resume db.tables n db.outside))
    unfolding pure
    saved n out parent =
        let (m, t, e, same) = finish_runs (resume db.tables n db.outside) p row quiet fresh in
        subst (Leaves (move row.id p) db)
          (sym (
            save_focus-finish (resume db.tables n db.outside) p row quiet found contained (λ at.
              moved_checks row p at (v.focus_checked row.id row found) (λ e. out (Below-self e)))
            ∙ e))
          (subst (λ foci. Step up (move row.id p) (ok tt) (hierarchy foci)) (sym same)
            (moved there out parent
              (insert-Reparents db.tables.focus_object (Race.moved p (db.outside.times n) row))))
      where
        contained : contains p db.tables.focus_object ≡ true
        contained = elim (Option-cases (lookup p db.tables.focus_object)) [
          | inl gone ↦ absurd (parent (ground arith))
          | inr (other, at_p) ↦ ground arith
        ]

    abbrev behind_check : ℕ → Outcome (Unit {0}) → Outcome Focus × Db
    behind_check n o =
        continue o (λ _. save_focus (move_focus row.id p) (focus_from_row row))
          (resume db.tables n db.outside)

    checked :
        (o : Outcome (Unit {0})) (n : ℕ)
        → Verdict up row.id p o
        → Leaves (move row.id p) db (behind_check n o)
    checked o n (inl (below, e)) =
        subst (λ o. Leaves (move row.id p) db (behind_check n o)) (sym e) (into_itself there below)
    checked o n (inr (inl (out, gone, e))) =
        subst (λ o. Leaves (move row.id p) db (behind_check n o)) (sym e) (no_parent there out gone)
    checked o n (inr (inr (out, parent, e))) =
        subst (λ o. Leaves (move row.id p) db (behind_check n o)) (sym e) (saved n out parent)

    pub update_focus_runs :
        (user : Uuid)
        → Leaves (move row.id p) db (FocusStore.update_focus user (move_focus row.id p) db)
    unfolding FocusStore.update_focus check_parent ◌>>=◌
    update_focus_runs user =
        let (o, n, e) = ensure_can_move_focus_runs (tick db) quiet row.id p v.forest in
        subst (Leaves (move row.id p) db)
          (sym (
            ap
              (λ r.
                continue r.0
                  (λ current. check_parent (move_focus row.id p) >>= λ _.
                    save_focus (move_focus row.id p) current)
                  r.1)
              (get_focus_base_found db quiet row.id row found)
            ∙ ap
                (λ r. continue r.0 (λ _. save_focus (move_focus row.id p) (focus_from_row row)) r.1)
                e))
          (checked o n (
            subst (Verdict up row.id p) (ap (λ r. r.0) e)
              (ensure_can_move_focus-verdict (tick db) row.id p quiet v.forest)))
