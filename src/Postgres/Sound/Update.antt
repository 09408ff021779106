-- ===== src/Postgres/Sound/Update.antt =====
-- UpdateFocus leaves the tables sound, whatever faults happen.
use focus_flow.Common.{
  ◌≡◌, sym, ap, subst, ◌∙◌, inl, inr, true, none, some, Option, arith, lookup, insert, Bool-cases,
  Option-cases, is_some,
}
use focus_flow.Forest.{Below}
use focus_flow.Forest.Order.{not-Below-child, Rooted-parent}
use focus_flow.Model.{Uuid, Time, FocusFields, UpdateFocus}
use focus_flow.Postgres.{FocusObjectRow, focus_from_row}
use focus_flow.Postgres.Rows.{row_of_focus}
use focus_flow.Postgres.Schema.{focus_checks}
use focus_flow.Postgres.Sql.{Tables, map_not_found}
use focus_flow.Postgres.Sql.Keeps.{
  Keeps, Keeps-now, Keeps-pure, Keeps-bind, kept-guarded, replied, Triple, Triple-statement,
  Triple-bind, Triple-mono,
}
use focus_flow.Postgres.Descent.{hierarchy}
use focus_flow.Postgres.Statements.{update_focus_row, set_focus}
use focus_flow.Fake.Focuses.{nullable}
use focus_flow.Postgres.FocusStore.{updated_focus, save_focus, update_focus}
use focus_flow.Postgres.FocusStore.Move.{get_focus_base-Found, Movable}
use focus_flow.Postgres.Sound.{HasIfGiven, IsSound, is_terminal}
use focus_flow.Postgres.Sound.Focuses.{Placed, write_focus-IsSound, insert_event-Keeps, not-false}
use focus_flow.Postgres.Sound.Checks.{
  Current, Checked, Agrees, check_parent-Checked, new_finished_at-Agrees,
}

module _ (input : UpdateFocus) (current : FocusFields) where
  abbrev Ready : Tables → Type 0
  Ready t = Current input.id current t × Checked input t

  -- The row under the identifier is the one that was read.
  read_row :
      (t : Tables) (old : FocusObjectRow)
      → Current input.id current t
      → lookup input.id t.focus_object ≡ some old
      → current ≡ focus_from_row old
  read_row t old (v, (row, found, e)) h = e ∙ ap focus_from_row same
    where
      same : row ≡ old
      same = ground arith

  -- The parent that the focus keeps exists, and is not below it.
  kept_parent :
      (t : Tables) (old : FocusObjectRow) (p : Uuid)
      → IsSound t
      → lookup input.id t.focus_object ≡ some old
      → old.parent_id ≡ some p
      → Movable input.id p t
  kept_parent t old p v h e =
      let (d, r) = v.forest input.id (some p) up in
      let (f, same, above) = Rooted-parent r up in
      (
        not-Below-child above up,
        subst (HasIfGiven t.focus_object) e (v.integral.parents input.id old h),
      )
    where
      up : hierarchy t.focus_object input.id ≡ some (some p)
      up = ground arith

  placed :
      (t : Tables) (old : FocusObjectRow) (p : Uuid)
      → Ready t
      → lookup input.id t.focus_object ≡ some old
      → nullable input.parent_id old.parent_id ≡ some p
      → Movable input.id p t
  placed t old p (now_, checked) h e = elim (Bool-cases input.parent_id.set) [
    | inl set ↦ checked set p (ground arith)
    | inr unset ↦ kept_parent t old p now_.0 h (ground arith)
  ]

  abbrev new_row : Option Time → Time → FocusObjectRow
  new_row finished at = row_of_focus (updated_focus input finished at current)

  -- What the row that was read says of the identifiers.
  same_id : (t : Tables) → Ready t → current.id ≡ input.id
  same_id t ((v, (row, found, e)), checked) =
      ap (λ f. f.id) e ∙ v.integral.focus_ids input.id row found

  written :
      (t : Tables) (old : FocusObjectRow) (finished : Option Time) (at : Time)
      → Ready t
      → Agrees input current finished
      → lookup current.id t.focus_object ≡ some old
      → focus_checks (set_focus (new_row finished at) old) ≡ true
      → IsSound (record t {
        focus_object = insert current.id (set_focus (new_row finished at) old) t.focus_object;
      })
  written t old finished at ready agrees h checks =
      subst
        (λ k. IsSound (record t {
          focus_object = insert k (set_focus (new_row finished at) old) t.focus_object;
        }))
        (ready.0.0.integral.focus_ids current.id old h)
        (write_focus-IsSound t (set_focus (new_row finished at) old) ready.0.0 in_place agrees
          checks)
    where
      in_place : Placed t (set_focus (new_row finished at) old)
      in_place p e =
          let (out, there) = placed t old p ready here (
            subst (λ f. nullable input.parent_id f.parent_id ≡ some p) (read_row t old ready.0 here)
              e) in
          (
            there,
            subst (λ k. ¬ Below (hierarchy t.focus_object) k p)
                (sym (ready.0.0.integral.focus_ids input.id old here)) out,
          )
        where
          here : lookup input.id t.focus_object ≡ some old
          here = subst (λ k. lookup k t.focus_object ≡ some old) (same_id t ready) h

  update_focus_row-IsSound :
      (finished : Option Time) (at : Time) (t : Tables)
      → Ready t
      → Agrees input current finished
      → IsSound (update_focus_row (new_row finished at) t).1
  unfolding update_focus_row
  update_focus_row-IsSound finished at t ready agrees =
      elim (Option-cases (lookup current.id t.focus_object)) [
        | inl gone ↦ rw (gone, update_focus_row) ready.0.0
        | inr (old, found) ↦
            rw (found, update_focus_row)
              (kept-guarded IsSound _ _ _ t ready.0.0 λ checked.
                kept-guarded IsSound _ _ _ t ready.0.0
                  λ there. written t old finished at ready agrees found (not-false checked))
      ]

  save_focus-IsSound : Triple Ready (save_focus input current) (λ _. IsSound) IsSound
  unfolding save_focus
  save_focus-IsSound =
      Triple-bind _ _
        (Triple-mono _ (λ t p. p) (λ a t p. p) (λ t p. p.0.0)
          (new_finished_at-Agrees input.status current agreed))
        λ finished.
          Triple-bind _ _ (Triple-mono _ (λ t p. p) (λ a t p. p) (λ t p. p.0.0.0) Keeps-now) λ at.
            Triple-bind _ _
              (Triple-statement map_not_found (update_focus_row (new_row finished at))
                (λ t p. p.0.0.0)
                (λ t p. replied IsSound _ (update_focus_row-IsSound finished at t p.0 p.1)))
              λ row.
                Keeps-bind _ _ (insert_event-Keeps (some row.id) none "focus.updated")
                  λ _. Keeps-pure _
    where
      agreed : (t : Tables) → Ready t → is_some current.finished_at ≡ is_terminal current.status
      agreed t ((v, (row, found, e)), checked) =
          subst (λ f. is_some f.finished_at ≡ is_terminal f.status) (sym e)
            (v.finished input.id row found)

pub update_focus-Keeps :
    (user : Uuid) (input : UpdateFocus) → Keeps IsSound (update_focus user input)
unfolding update_focus
update_focus-Keeps user input = Triple-bind _ _ (get_focus_base-Found IsSound input.id) λ current.
    Triple-bind _ _
      (Triple-mono _ (λ t p. p) (λ a t p. p) (λ t p. p.0) (check_parent-Checked input current))
      λ _. save_focus-IsSound input current
