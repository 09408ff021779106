-- ===== src/Postgres/FocusStore/Race/Cycle.antt =====
-- Two calls of UpdateFocus whose statements interleave make a cycle.
use focus_flow.Common.{
  ℕ, ◌≡◌, refl, sym, ap, subst, ◌∙◌, inl, inr, true, none, some, arith, lookup, insert, contains,
  lookup-insert,
}
use focus_flow.Storage.{ok}
use focus_flow.Forest.{Below, IsForest}
use focus_flow.Model.{move_focus, Uuid, Time}
use focus_flow.Postgres.{FocusObjectRow, focus_from_row}
use focus_flow.Postgres.Schema.{focus_checks}
use focus_flow.Postgres.Sql.{Tables, Outside}
use focus_flow.Postgres.Sql.Keeps.{Keeps-tables}
use focus_flow.Postgres.Sql.Quiet.{resume}
use focus_flow.Postgres.Descent.{hierarchy}
use focus_flow.Postgres.FocusStore.{check_parent, ensure_can_move_focus, save_focus}
use focus_flow.Postgres.FocusStore.Reads.{ensure_can_move_focus-Keeps}
use focus_flow.Postgres.FocusStore.Verdict.{ensure_can_move_focus-verdict}
use focus_flow.Postgres.FocusStore.Race.{
  resume, checked, raced, moved, save_focus-moved, two_cycle, Below-cases_root,
}

-- A root that may be moved: its row passes the constraints with any other focus as its parent.
pub record Root (t : Tables) (row : FocusObjectRow) : Type 0 where
  pub found : lookup row.id t.focus_object ≡ some row
  pub is_root : row.parent_id ≡ none
  pub checks :
      (parent : Uuid) (at : Time) → ¬ (parent ≡ row.id) → focus_checks (moved parent at row) ≡ true

abbrev Calm : Outside → Type 0
Calm outside = (n : ℕ) → outside.faults n ≡ none

allowed :
    (a b : FocusObjectRow)
    → ¬ (a.id ≡ b.id)
    → (t : Tables) (n : ℕ) (outside : Outside) → IsForest (hierarchy t.focus_object)
    → Root t b
    → Calm outside
    → (check_parent (move_focus a.id b.id) (resume t n outside)).0 ≡ ok tt
unfolding check_parent
allowed a b differ t n outside forest is calm =
    elim (ensure_can_move_focus-verdict (resume t n outside) a.id b.id calm forest) [
      | inl (below, e) ↦ absurd (above_root below)
      | inr (inl (out, gone, e)) ↦ absurd (there gone)
      | inr (inr (out, there, e)) ↦ e
    ]
  where
    above_root : ¬ Below (hierarchy t.focus_object) a.id b.id
    above_root below = elim (Below-cases_root below) [
      | inl same ↦ differ (sym same)
      | inr (p, h) ↦ ground (arith, is.found, is.is_root)
    ]

    there : ¬ (hierarchy t.focus_object b.id ≡ none)
    there gone = ground (arith, is.found)

module _ (a b : FocusObjectRow) (differ : ¬ (a.id ≡ b.id)) where
  saved :
      (t : Tables) (n m : ℕ) (first second : Outside)
      → Root t a
      → Root t b
      → Calm first
      → Calm second
      → ¬ IsForest (
          hierarchy
            (save_focus (move_focus b.id a.id) (focus_from_row b) (
              resume
                (save_focus (move_focus a.id b.id) (focus_from_row a) (resume t n first)).1.tables
                m
                second)).1.tables.focus_object)
  saved t n m first second is_a is_b calm calm' =
      let at = first.times n in
      let e =
        save_focus-moved (resume t n first) b.id a calm is_a.found (ground (arith, is_b.found))
          (λ at. is_a.checks b.id at (λ same. differ (sym same))) in
      let b_found =
        subst (λ foci. lookup b.id foci ≡ some b) (sym e)
          (ground (arith, lookup-insert b.id a.id (moved b.id at a) t.focus_object, is_b.found)) in
      let a_there =
        subst (λ foci. contains a.id foci ≡ true) (sym e)
          (ground (arith, lookup-insert a.id a.id (moved b.id at a) t.focus_object)) in
      let at' = second.times m in
      let e' =
        save_focus-moved
          (resume (save_focus (move_focus a.id b.id) (focus_from_row a) (resume t n first)).1.tables
            m second)
          a.id b calm' b_found a_there (λ at. is_b.checks a.id at differ) in
      subst (λ foci. ¬ IsForest (hierarchy foci)) (sym (e' ∙ ap (insert b.id (moved a.id at' b)) e))
        (two_cycle _ a.id b.id
          (ground (
            arith,
            lookup-insert a.id b.id (moved a.id at' b)
                (insert a.id (moved b.id at a) t.focus_object),
            lookup-insert a.id a.id (moved b.id at a) t.focus_object,
          ))
          (ground (
            arith,
            lookup-insert b.id b.id (moved a.id at' b)
                (insert a.id (moved b.id at a) t.focus_object),
          )))

  same_tables :
      (id parent : Uuid) (t : Tables) (n : ℕ) (outside : Outside)
      → (checked (move_focus id parent) t n outside).1.tables ≡ t
  unfolding check_parent
  same_tables id parent t n outside =
      Keeps-tables {P = λ s. s ≡ t} (ensure_can_move_focus id parent)
        (ensure_can_move_focus-Keeps id parent) (resume t n outside) refl

  -- From tables without a cycle, with two different roots whose rows pass the constraints with a
  -- parent, two calls of UpdateFocus that move each root under the other are both allowed if each
  -- checks before the other writes, and then their writes leave a hierarchy with a cycle, if no
  -- statement fails.
  pub moves_race :
      (t : Tables) (k l n m : ℕ) (first second : Outside)
      → IsForest (hierarchy t.focus_object)
      → Root t a
      → Root t b
      → Calm first
      → Calm second
      → ((checked (move_focus a.id b.id) t k first).0 ≡ ok tt)
        × ((checked
              (move_focus b.id a.id)
              (checked (move_focus a.id b.id) t k first).1.tables
              l
              second).0
            ≡ ok tt)
        × (¬ IsForest (
            hierarchy
              (raced a b
                (checked
                  (move_focus b.id a.id)
                  (checked (move_focus a.id b.id) t k first).1.tables
                  l
                  second).1.tables
                n
                m
                first
                second).focus_object))
  moves_race t k l n m first second forest is_a is_b calm calm' =
      rw (same_tables a.id b.id t k first) (
        allowed a b differ t k first forest is_b calm,
        allowed b a (λ e. differ (sym e)) t l second forest is_a calm',
        rw (same_tables b.id a.id t l second) (saved t n m first second is_a is_b calm calm'),
      )
