-- ===== src/Postgres/Sound/Focuses.antt =====
-- The methods of focus_store.go leave the tables sound, whatever faults happen.
use focus_flow.Common.{
  Bool, true, ℕ, ◌≡◌, refl, inl, inr, false, not, none, some, Option, arith, Map, lookup, insert,
  lookup-insert, Option-cases, String, is_some, or_keep,
}
use focus_flow.Forest.{Below}
use focus_flow.Forest.Order.{Below-head, Rooted-up}
use focus_flow.Forest.Change.{Reparents, reparent-IsForest}
use focus_flow.Model.{Uuid, Time, planned, FocusStatus, CreateFocus}
use focus_flow.Postgres.{FocusObjectRow, finished_at_for_status}
use focus_flow.Postgres.Rows.{FocusEventRow}
use focus_flow.Postgres.Schema.{refers, focus_checks}
use focus_flow.Postgres.Sql.{Tables}
use focus_flow.Postgres.Sql.Keeps.{keeps_rules, Keeps, kept-guarded}
use focus_flow.Postgres.Descent.{hierarchy}
use focus_flow.Postgres.Statements.{insert_focus, insert_event_row}
use focus_flow.Postgres.GoalStore.{insert_event}
use focus_flow.Postgres.FocusStore.{created_row, create_focus}
use focus_flow.Postgres.Sound.{Has, HasIfGiven, IsSound, Finished, is_terminal}
use focus_flow.Postgres.Sound.Writes.{insert_focus-IsIntegral, insert_event-IsIntegral, Rows-insert}

pub refers-HasIfGiven :
    {V : Type 0} (o : Option Uuid) (rows : Map V) → not (refers o rows) ≡ false → HasIfGiven rows o
refers-HasIfGiven none rows h = tt
refers-HasIfGiven (some x) rows h = λ gone. ground arith

pub not-false : {b : Bool} → not b ≡ false → b ≡ true
not-false {b} h = ground arith

-- An insert of a row, or its new version, reparents its object.
pub insert-Reparents :
    (rows : Map FocusObjectRow) (row : FocusObjectRow)
    → Reparents (hierarchy rows) row.id row.parent_id (hierarchy (insert row.id row rows))
insert-Reparents rows row = record {
  here = ground (arith, lookup-insert row.id row.id row rows);
  elsewhere = λ x differ. ground (arith, lookup-insert x row.id row rows);
}

-- A row whose parent exists and is not below it may be written.
abbrev pub Placed : Tables → FocusObjectRow → Type 0
Placed t row =
    (p : Uuid)
    → row.parent_id ≡ some p
    → Has t.focus_object p × (¬ Below (hierarchy t.focus_object) row.id p)

Has-up :
    (rows : Map FocusObjectRow) (p : Uuid)
    → Has rows p
    → (q : Option Uuid) × (hierarchy rows p ≡ some q)
Has-up rows p h = elim (Option-cases (lookup p rows)) [
  | inl gone ↦ absurd (h gone)
  | inr (row, found) ↦ (row.parent_id, ground arith)
]

Placed-given :
    (t : Tables) (row : FocusObjectRow) (o : Option Uuid)
    → row.parent_id ≡ o
    → Placed t row
    → HasIfGiven t.focus_object o
Placed-given t row none e h = tt
Placed-given t row (some p) e h = (h p e).0

pub write_focus-IsSound :
    (t : Tables) (row : FocusObjectRow)
    → IsSound t
    → Placed t row
    → Finished row
    → focus_checks row ≡ true
    → IsSound (record t { focus_object = insert row.id row t.focus_object })
write_focus-IsSound t row v placed finished checks = record {
  integral =
      insert_focus-IsIntegral t row v.integral (Placed-given t row row.parent_id refl placed);
  forest =
      reparent-IsForest v.forest row.id row.parent_id (insert-Reparents t.focus_object row) (λ p e.
        let (there, out) = placed p e in
        let (q, up) = Has-up t.focus_object p there in let (d, r) = v.forest p q up in (d, r, out));
  finished = Rows-insert row.id row t.focus_object (λ j w h. h) finished v.finished;
  focus_checked = Rows-insert row.id row t.focus_object (λ j w h. h) checks v.focus_checked;
  goal_checked = v.goal_checked;
}

insert_event_row-IsSound :
    (row : FocusEventRow) (t : Tables) → IsSound t → IsSound (insert_event_row row t).1
unfolding insert_event_row
insert_event_row-IsSound row t v = kept-guarded IsSound _ _ _ t v λ checked.
    kept-guarded IsSound _ _ _ t v λ fresh. kept-guarded IsSound _ _ _ t v λ focus.
      kept-guarded IsSound _ _ _ t v λ goal. record {
        integral =
            insert_event-IsIntegral t row v.integral
              (refers-HasIfGiven row.focus_object_id t.focus_object focus)
              (refers-HasIfGiven row.goal_id t.focus_goal goal);
        forest = v.forest;
        finished = v.finished;
        focus_checked = v.focus_checked;
        goal_checked = v.goal_checked;
      }

pub insert_event-Keeps :
    (focus goal : Option Uuid) (kind : String) → Keeps IsSound (insert_event focus goal kind)
unfolding insert_event
insert_event-Keeps focus goal kind = search (keeps_rules, insert_event_row-IsSound)

-- Nothing is below an object that is not there.
fresh-not-Below :
    (t : Tables) (id p : Uuid)
    → IsSound t
    → lookup id t.focus_object ≡ none
    → Has t.focus_object p
    → ¬ Below (hierarchy t.focus_object) id p
fresh-not-Below t id p v gone there below =
    let (q, up) = Has-up t.focus_object p there in
    let (d, r) = v.forest p q up in
    let (e, s, le) = Below-head below r in let (o, h) = Rooted-up s in ground arith

insert_focus-IsSound :
    (row : FocusObjectRow)
    → Finished row
    → (t : Tables) → IsSound t
    → IsSound (insert_focus row t).1
unfolding insert_focus
insert_focus-IsSound row finished t v = kept-guarded IsSound _ _ _ t v λ checked.
    kept-guarded IsSound _ _ _ t v λ fresh. kept-guarded IsSound _ _ _ t v λ there.
      write_focus-IsSound t row v
        (λ p e. (
          parent_there p e there,
          fresh-not-Below t row.id p v (ground arith) (parent_there p e there),
        ))
        finished (not-false checked)
  where
    parent_there :
        (p : Uuid)
        → row.parent_id ≡ some p
        → not (refers row.parent_id t.focus_object) ≡ false
        → Has t.focus_object p
    parent_there p e there = λ gone. ground arith

pub finished_at_for_status_lem :
    (status : FocusStatus) (at : Time)
    → is_some (finished_at_for_status status at) ≡ is_terminal status
unfolding finished_at_for_status
finished_at_for_status_lem status at = ground arith

Finished-created_row :
    (id : Uuid) (at : ℕ) (input : CreateFocus) → Finished (created_row id at input)
Finished-created_row id at input = finished_at_for_status_lem (or_keep input.status planned) at

pub create_focus-Keeps :
    (user : Uuid) (input : CreateFocus) → Keeps IsSound (create_focus user input)
unfolding create_focus
create_focus-Keeps user input =
    search (keeps_rules, insert_focus-IsSound, Finished-created_row, insert_event-Keeps) depth 12
