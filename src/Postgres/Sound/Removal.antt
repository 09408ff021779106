-- ===== src/Postgres/Sound/Removal.antt =====
-- The removal of focuses and goals with what refers to them keeps the references between the
-- tables, if it removes the children and the goals of every focus that it removes.
use focus_flow.Common.{
  ◌≡◌, refl, subst, inl, inr, true, false, Option, none, some, List, [], ◌∷◌, arith, Map, lookup,
  All-keep_if, eq-cases, Bool, Bool-cases, member,
}
use focus_flow.Model.{Uuid}
use focus_flow.Postgres.{FocusObjectRow}
use focus_flow.Postgres.Rows.{FocusGoalRow, FocusEventRow}
use focus_flow.Postgres.Sql.{Tables}
use focus_flow.Postgres.Descent.{erase_all}
use focus_flow.Postgres.Descent.Members.{lookup-erase_all}
use focus_flow.Postgres.Statements.{
  keys_where, specifications_of, clear_events, cleared_if, remove_rows,
}
use focus_flow.Postgres.Sound.{Has, HasIfGiven, Rows, IsIntegral}

module _ {V : Type 0} where
  -- The keys of the rows that meet a condition hold the key of each such row.
  pub member-keys_where :
      (p : V → Bool) (k : Uuid) (row : V) (rows : Map V)
      → lookup k rows ≡ some row
      → p row ≡ true
      → member k (keys_where p rows) ≡ true
  unfolding keys_where
  member-keys_where p k row [] h t = cc
  member-keys_where p k row (e ∷ rows) h t = ground (arith, member-keys_where p k row rows)

  kept-erase_all :
      (ds : List Uuid) (k : Uuid) (row : V) (rows : Map V)
      → lookup k (erase_all ds rows) ≡ some row
      → (member k ds ≡ false) × (lookup k rows ≡ some row)
  kept-erase_all ds k row rows h = ground (arith, lookup-erase_all k ds rows)

  -- What is left is old, and was not to go.
  pub Rows-erase_all :
      {P P' : Uuid → V → Type 0} (ds : List Uuid) (rows : Map V)
      → ((k : Uuid) (row : V) → lookup k rows ≡ some row → member k ds ≡ false → P k row → P' k row)
      → Rows rows P
      → Rows (erase_all ds rows) P'
  Rows-erase_all ds rows to h k row e =
      let (m, old) = kept-erase_all ds k row rows e in to k row old m (h k row old)

  pub Has-erase_all :
      (ds : List Uuid) (x : Uuid) (rows : Map V)
      → member x ds ≡ false
      → Has rows x
      → Has (erase_all ds rows) x
  Has-erase_all ds x rows m h = λ e. h (ground (arith, lookup-erase_all x ds rows))

  HasIfGiven-erase_all :
      (ds : List Uuid) (o : Option Uuid) (rows : Map V)
      → ((p : Uuid) → o ≡ some p → member p ds ≡ false)
      → HasIfGiven rows o
      → HasIfGiven (erase_all ds rows) o
  HasIfGiven-erase_all ds none rows m h = tt
  HasIfGiven-erase_all ds (some p) rows m h = Has-erase_all ds p rows (m p refl) h

  HasIfGiven-cleared_if :
      (ds : List Uuid) (o : Option Uuid) (rows : Map V)
      → HasIfGiven rows o
      → HasIfGiven (erase_all ds rows) (cleared_if (λ id. member id ds) o)
  HasIfGiven-cleared_if ds none rows h = tt
  HasIfGiven-cleared_if ds (some id) rows h = elim (Bool-cases (member id ds)) [
    | inl gone ↦ rw gone tt
    | inr left ↦ rw left (Has-erase_all ds id rows left h)
  ]

abbrev cleared : (Uuid → Bool) → (Uuid → Bool) → FocusEventRow → FocusEventRow
cleared f g old = record old {
  focus_object_id = cleared_if f old.focus_object_id;
  goal_id = cleared_if g old.goal_id;
}

-- The events stay, with references that are cleared.
Rows-clear_events :
    {P : Uuid → FocusEventRow → Type 0} (P' : Uuid → FocusEventRow → Type 0) (f g : Uuid → Bool)
    (rows : Map FocusEventRow)
    → ((k : Uuid) (row : FocusEventRow) → P k row → P' k (cleared f g row))
    → Rows rows P
    → Rows (clear_events f g rows) P'
unfolding clear_events
Rows-clear_events {P} P' f g rows to h k row e =
    let (old, found, same) = source rows e in subst (P' k) same (to k old (h k old found))
  where
    source :
        (rows : Map FocusEventRow)
        → lookup k (clear_events f g rows) ≡ some row
        → (old : FocusEventRow) × (lookup k rows ≡ some old) × (cleared f g old ≡ row)
    source [] e = cc
    source ((j, w) ∷ rows) e = elim (eq-cases k j) [
      | inl same ↦ (w, ground arith, ground arith)
      | inr differ ↦
          let (old, found, same) = source rows (ground arith) in (old, ground arith, same)
    ]

abbrev pub Closed : Tables → List Uuid → List Uuid → Type 0
Closed t foci goals =
    ((k : Uuid) (row : FocusObjectRow) (p : Uuid)
      → lookup k t.focus_object ≡ some row
      → row.parent_id ≡ some p
      → member k foci ≡ false
      → member p foci ≡ false)
    × ((k : Uuid) (row : FocusGoalRow)
        → lookup k t.focus_goal ≡ some row
        → member k goals ≡ false
        → member row.focus_object_id foci ≡ false)

pub remove_rows-IsIntegral :
    (t : Tables) (foci goals : List Uuid)
    → IsIntegral t
    → Closed t foci goals
    → IsIntegral (remove_rows foci goals t)
unfolding remove_rows
remove_rows-IsIntegral t foci goals v closed = record {
  focus_ids = Rows-erase_all foci t.focus_object (λ k row e m h. h) v.focus_ids;
  parents =
      Rows-erase_all foci t.focus_object
        (λ k row e m h.
          HasIfGiven-erase_all foci row.parent_id t.focus_object (λ p q. closed.0 k row p e q m) h)
        v.parents;
  goal_ids = Rows-erase_all goals t.focus_goal (λ k row e m h. h) v.goal_ids;
  owners =
      Rows-erase_all goals t.focus_goal
        (λ k row e m h.
          Has-erase_all foci row.focus_object_id t.focus_object (closed.1 k row e m) h)
        v.owners;
  links =
      All-keep_if _ t.focus_goal_link
        (λ link keep h. (
          Has-erase_all goals link.goal_id t.focus_goal (ground arith) h.0,
          Has-erase_all foci link.focus_object_id t.focus_object (ground arith) h.1,
        ))
        v.links;
  specifications =
      Rows-erase_all (specifications_of foci t.focus_specification) t.focus_specification
        (λ k row e m h.
          Has-erase_all foci row.focus_object_id t.focus_object
            (ground (
              arith,
              member-keys_where (λ row. member row.focus_object_id foci) k row
                  t.focus_specification,
            ))
            h)
        v.specifications;
  event_foci =
      Rows-clear_events (λ k row. HasIfGiven (erase_all foci t.focus_object) row.focus_object_id) _
        _ t.focus_event (λ k row h. HasIfGiven-cleared_if foci row.focus_object_id t.focus_object h)
        v.event_foci;
  event_goals =
      Rows-clear_events (λ k row. HasIfGiven (erase_all goals t.focus_goal) row.goal_id) _ _
        t.focus_event (λ k row h. HasIfGiven-cleared_if goals row.goal_id t.focus_goal h)
        v.event_goals;
}
