-- ===== src/Postgres/FocusStore/Race.antt =====
-- UpdateFocus checks a move and writes it in statements of their own, outside a transaction: what
-- two calls can do whose statements interleave.
pub mod Cycle
use focus_flow.Common.{
  ℕ, if◌then◌else◌, ◌≡◌, refl, sym, ap, subst, ◌∙◌, ◌⊎◌, inl, inr, Bool, true, false, not, none,
  some, Option, [], arith, Map, lookup, insert, contains, lookup-insert, String,
}
use focus_flow.Storage.{Outcome, ok, err}
use focus_flow.Forest.{Parents, Rooted, root, Below, self, under, IsForest}
use focus_flow.Forest.Order.{not-Below-child}
use focus_flow.Forest.Change.{Reparents}
use focus_flow.Model.{move_focus, Uuid, Focus, node, nil, Time, FocusFields, UpdateFocus}
use focus_flow.Postgres.{FocusObjectRow, focus_from_row}
use focus_flow.Postgres.Rows.{row_of_focus}
use focus_flow.Postgres.Schema.{focus_checks, refers}
use focus_flow.Postgres.Sql.{
  Tables, Outside, Db, Statement, Action, Reply, reply, tick, pure, statement, ◌>>=◌, ◌>>◌, now,
  new_id, continue, answer, as_it_is, map_not_found, guarded,
}
use focus_flow.Postgres.Sql.Keeps.{
  Keeps, Keeps-now, Keeps-new_id, Keeps-pure, Keeps-bind, Keeps-statement, Keeps-tables,
  kept-guarded,
}
use focus_flow.Postgres.Sql.Quiet.{Quiet, statement-Quiet, resume}
use focus_flow.Postgres.Descent.{hierarchy}
use focus_flow.Postgres.Statements.{update_focus_row, set_focus, insert_event_row}
use focus_flow.Postgres.GoalStore.{insert_event, event_row}
use focus_flow.Postgres.FocusStore.{
  check_parent, ensure_can_move_focus, new_finished_at, updated_focus, save_focus,
}
use focus_flow.Postgres.FocusStore.Reads.{ensure_can_move_focus-Keeps}
use focus_flow.Postgres.FocusStore.Verdict.{ensure_can_move_focus-verdict}
use focus_flow.Postgres.Sound.Focuses.{insert-Reparents}

-- The row that the move writes.
abbrev pub moved : Uuid → Time → FocusObjectRow → FocusObjectRow
moved parent at row = record row { parent_id = some parent; updated_at = at }

module _ (foci : Map FocusObjectRow) where
  abbrev SameFoci : Tables → Type 0
  SameFoci t = t.focus_object ≡ foci

  insert_event-Keeps_foci :
      (focus goal : Option Uuid) (kind : String) → Keeps SameFoci (insert_event focus goal kind)
  unfolding insert_event insert_event_row
  insert_event-Keeps_foci focus goal kind = Keeps-bind _ _ Keeps-new_id λ id.
      Keeps-bind _ _ Keeps-now λ at.
        Keeps-statement as_it_is (insert_event_row (event_row id at focus goal kind)) λ t e.
          kept-guarded SameFoci _ _ _ t e λ checked. kept-guarded SameFoci _ _ _ t e λ fresh.
            kept-guarded SameFoci _ _ _ t e
              λ has_focus. kept-guarded SameFoci _ _ _ t e λ has_goal. e

-- What the statement of a move does.
update_focus_row-moved :
    (t : Tables) (parent : Uuid) (at : Time) (row : FocusObjectRow)
    → lookup row.id t.focus_object ≡ some row
    → contains parent t.focus_object ≡ true
    → focus_checks (moved parent at row) ≡ true
    → update_focus_row (moved parent at row) t ≡ (
      reply (moved parent at row),
      record t { focus_object = insert row.id (moved parent at row) t.focus_object },
    )
unfolding update_focus_row guarded
update_focus_row-moved t parent at row found there checks = ground arith

-- The state behind the statement of a move, and what UpdateFocus still does.
abbrev pub behind : Db → Uuid → FocusObjectRow → Db
behind db parent row = record (tick (tick db)) {
  tables = record db.tables {
    focus_object =
        insert row.id (moved parent (db.outside.times db.ticks) row) db.tables.focus_object;
  };
}

abbrev pub finish : FocusObjectRow → Action Focus
finish saved = do
  insert_event (some saved.id) none "focus.updated"
  pure (node (focus_from_row saved) nil)

module _ (db : Db) (parent : Uuid) (row : FocusObjectRow) (quiet : Quiet db)
    (found : lookup row.id db.tables.focus_object ≡ some row)
    (there : contains parent db.tables.focus_object ≡ true)
    (checks : (at : Time) → focus_checks (moved parent at row) ≡ true) where
  pub save_focus-finish :
      save_focus (move_focus row.id parent) (focus_from_row row) db
      ≡ finish (moved parent (db.outside.times db.ticks) row) (behind db parent row)
  unfolding save_focus new_finished_at ◌>>=◌ pure now
  save_focus-finish =
      ap (λ r. continue r.0 finish r.1)
        (statement-Quiet map_not_found
            (update_focus_row (moved parent (db.outside.times db.ticks) row)) (tick db) quiet
          ∙ ap (λ r. (answer map_not_found r.0, record (tick (tick db)) { tables = r.1 }))
              (update_focus_row-moved db.tables parent (db.outside.times db.ticks) row found there
                (checks (db.outside.times db.ticks))))

  pub save_focus-moved :
      (save_focus (move_focus row.id parent) (focus_from_row row) db).1.tables.focus_object
      ≡ (behind db parent row).tables.focus_object
  save_focus-moved =
      ap (λ r. r.1.tables.focus_object) save_focus-finish
      ∙ Keeps-tables (finish (moved parent (db.outside.times db.ticks) row))
          (Keeps-bind _ _ (insert_event-Keeps_foci _ (some row.id) none "focus.updated")
            λ _. Keeps-pure _)
          (behind db parent row) refl

pub Below-cases_root :
    {up : Parents} {a x : ℕ} → Below up a x → (x ≡ a) ⊎ ((p : ℕ) × (up x ≡ some (some p)))
Below-cases_root self = inl refl
Below-cases_root (under p h k) = inr (p, h)

-- Two objects that are each other's parents are on a cycle.
pub two_cycle :
    (up : Parents) (a b : ℕ) → up a ≡ some (some b) → up b ≡ some (some a) → ¬ IsForest up
two_cycle up a b h k forest =
    let (d, r) = forest b (some a) k in not-Below-child r h (under a k self)

-- The check of a call, on the tables as they are by then.
abbrev pub checked : UpdateFocus → Tables → ℕ → Outside → Outcome (Unit {0}) × Db
checked input t n outside = check_parent input (resume t n outside)

-- The tables behind the writes of two calls that move each focus under the other, each call with
-- its own times and identifiers.
abbrev pub raced : FocusObjectRow → FocusObjectRow → Tables → ℕ → ℕ → Outside → Outside → Tables
raced a b t n m first second =
    (save_focus (move_focus b.id a.id) (focus_from_row b) (
      resume (save_focus (move_focus a.id b.id) (focus_from_row a) (resume t n first)).1.tables m
        second)).1.tables
