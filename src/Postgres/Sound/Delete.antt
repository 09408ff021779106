-- ===== src/Postgres/Sound/Delete.antt =====
-- DeleteFocus leaves the tables sound, whatever faults happen, and its statement removes exactly the
-- focus and what lies below it.
use focus_flow.Common.{
  ℕ, ◌≡◌, sym, ap, subst, inl, inr, false, some, List, [], ◌∷◌, arith, Map, lookup, length, member,
  Marks, Marks-iff, Bool-cases, Option-cases,
}
use focus_flow.Forest.{Below, under}
use focus_flow.Forest.Change.{Prunes, prune-IsForest}
use focus_flow.Model.{Uuid}
use focus_flow.Postgres.{FocusObjectRow}
use focus_flow.Postgres.Rows.{FocusGoalRow}
use focus_flow.Postgres.Sql.{Tables, Reply, reply}
use focus_flow.Postgres.Sql.Keeps.{keeps_rules, Keeps}
use focus_flow.Postgres.Descent.{hierarchy, erase_all}
use focus_flow.Postgres.Descent.Members.{hierarchy-erase_all}
use focus_flow.Postgres.Descent.Cascade.{cascade-Ends}
use focus_flow.Postgres.Statements.{delete_focus_row, remove_rows, goals_of}
use focus_flow.Postgres.GoalStore.{check_affected}
use focus_flow.Postgres.GoalStore.Reads.{get_focus_base-Keeps}
use focus_flow.Postgres.FocusStore.{delete_focus}
use focus_flow.Postgres.Sound.{Has, IsSound}
use focus_flow.Postgres.Sound.Removal.{
  Closed, remove_rows-IsIntegral, Rows-erase_all, member-keys_where,
}
use focus_flow.Postgres.Sound.Focuses.{insert_event-Keeps}

-- The statement removes a list of focuses with their goals, and ends.
abbrev pub Deletes : Tables → Uuid → Reply ℕ × Tables → Type 0
Deletes t id r =
    (ds : List Uuid) × Marks (Below (hierarchy t.focus_object) id) ds
    × (r ≡ (reply 1, remove_rows ds (goals_of ds t.focus_goal) t))

-- The statement of DeleteFocus for a focus that is there ends, even if the hierarchy has cycles;
-- it answers one row, and removes exactly the focuses that lie below it, itself included, with
-- their goals and what refers to them.
pub delete_focus_row-Deletes :
    (t : Tables) (id : Uuid) → Has t.focus_object id → Deletes t id (delete_focus_row id t)
unfolding delete_focus_row
delete_focus_row-Deletes t id there = elim (Option-cases (lookup id t.focus_object)) [
  | inl gone ↦ absurd (there gone)
  | inr (row, found) ↦
      let (ds, e, marks) =
        cascade-Ends (length t.focus_object) (id ∷ []) t.focus_object (λ m l gone. ground arith)
          (omega arith) in
      (
        ds,
        Marks-iff ds
            (λ x (m, l, b). subst (λ k. Below (hierarchy t.focus_object) k x) (ground arith) b)
            (λ x b. (id, ground arith, b)) marks,
        ground arith,
      )
]

-- What lies below goes with what it lies below.
Below-Closed :
    (t : Tables) (id : Uuid) (ds : List Uuid)
    → Marks (Below (hierarchy t.focus_object) id) ds
    → Closed t ds (goals_of ds t.focus_goal)
Below-Closed t id ds marks = (children_go, goals_go)
  where
    children_go :
        (k : Uuid) (row : FocusObjectRow) (p : Uuid)
        → lookup k t.focus_object ≡ some row
        → row.parent_id ≡ some p
        → member k ds ≡ false
        → member p ds ≡ false
    children_go k row p h e left = elim (marks p) [
      | inl (b, m) ↦ elim (marks k) [
        | inl (c, n) ↦ cc
        | inr (out, n) ↦ absurd (out (under p (ground arith) b))
      ]
      | inr (out, m) ↦ m
    ]

    goals_go :
        (k : Uuid) (row : FocusGoalRow)
        → lookup k t.focus_goal ≡ some row
        → member k (goals_of ds t.focus_goal) ≡ false
        → member row.focus_object_id ds ≡ false
    goals_go k row h left = elim (Bool-cases (member row.focus_object_id ds)) [
      | inl hit ↦
          cc (member-keys_where (λ row. member row.focus_object_id ds) k row t.focus_goal h hit)
      | inr miss ↦ miss
    ]

pub Marks-Prunes :
    (rows : Map FocusObjectRow) (id : Uuid) (ds : List Uuid)
    → Marks (Below (hierarchy rows) id) ds
    → Prunes (hierarchy rows) id (hierarchy (erase_all ds rows))
Marks-Prunes rows id ds marks x = elim (marks x) [
  | inl (b, m) ↦ inl (b, ground (arith, hierarchy-erase_all x ds rows))
  | inr (out, m) ↦ inr (out, ground (arith, hierarchy-erase_all x ds rows))
]

remove_rows-IsSound :
    (t : Tables) (id : Uuid) (ds : List Uuid)
    → IsSound t
    → Marks (Below (hierarchy t.focus_object) id) ds
    → IsSound (remove_rows ds (goals_of ds t.focus_goal) t)
unfolding remove_rows
remove_rows-IsSound t id ds v marks = record {
  integral = remove_rows-IsIntegral t ds _ v.integral (Below-Closed t id ds marks);
  forest = prune-IsForest v.forest id (Marks-Prunes t.focus_object id ds marks);
  finished = Rows-erase_all ds t.focus_object (λ k row e m h. h) v.finished;
  focus_checked = Rows-erase_all ds t.focus_object (λ k row e m h. h) v.focus_checked;
  goal_checked =
      Rows-erase_all (goals_of ds t.focus_goal) t.focus_goal (λ k row e m h. h) v.goal_checked;
}

delete_focus_row-IsSound : (id : Uuid) (t : Tables) → IsSound t → IsSound (delete_focus_row id t).1
unfolding delete_focus_row
delete_focus_row-IsSound id t v = elim (Option-cases (lookup id t.focus_object)) [
  | inl gone ↦ rw (gone, delete_focus_row) v
  | inr (row, found) ↦
      let (ds, marks, e) = delete_focus_row-Deletes t id (λ gone. cc) in
      subst IsSound (sym (ap (λ r. r.1) e)) (remove_rows-IsSound t id ds v marks)
]

pub check_affected-Keeps : {P : Tables → Type 0} (n : ℕ) → Keeps P (check_affected n)
check_affected-Keeps n = search keeps_rules

pub delete_focus-Keeps : (user id : Uuid) → Keeps IsSound (delete_focus user id)
unfolding delete_focus
delete_focus-Keeps user id = search (
  keeps_rules, get_focus_base-Keeps, insert_event-Keeps, delete_focus_row-IsSound,
  check_affected-Keeps,
)
