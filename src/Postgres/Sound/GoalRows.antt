-- ===== src/Postgres/Sound/GoalRows.antt =====
-- The statements of goal_store.go keep the tables sound.
use focus_flow.Common.{
  true, if◌then◌else◌, ◌≡◌, refl, subst, inl, inr, false, not, some, List, [], ◌∷◌, arith, Map,
  lookup, insert, contains, All, All-keep_if, Option-cases, Bool-cases,
}
use focus_flow.Model.{Uuid}
use focus_flow.Postgres.Rows.{FocusGoalRow, FocusGoalLinkRow}
use focus_flow.Postgres.Sql.{Tables}
use focus_flow.Postgres.Sql.Keeps.{kept-guarded}
use focus_flow.Postgres.GoalStatements.{
  insert_goal, update_goal_row, set_goal, delete_goal_row, insert_link, delete_links, delete_link,
  new_link, has_link,
}
use focus_flow.Postgres.Statements.{remove_rows}
use focus_flow.Postgres.Descent.{erase_all}
use focus_flow.Postgres.Sound.{Has, IsSound}
use focus_flow.Postgres.Schema.{goal_checks}
use focus_flow.Postgres.Sound.Focuses.{not-false}
use focus_flow.Postgres.Sound.Removal.{Rows-erase_all}
use focus_flow.Postgres.Sound.Writes.{
  Rows-insert, insert_goal-IsIntegral, relink-IsIntegral, Linked,
}
use focus_flow.Postgres.Sound.Removal.{remove_rows-IsIntegral}

contains-Has : {V : Type 0} (x : Uuid) (rows : Map V) → not (contains x rows) ≡ false → Has rows x
contains-Has x rows h = λ gone. ground arith

write_goal-IsSound :
    (t : Tables) (row : FocusGoalRow)
    → IsSound t
    → Has t.focus_object row.focus_object_id
    → goal_checks row ≡ true
    → IsSound (record t { focus_goal = insert row.id row t.focus_goal })
write_goal-IsSound t row v owner checks = record {
  integral = insert_goal-IsIntegral t row v.integral owner;
  forest = v.forest;
  finished = v.finished;
  focus_checked = v.focus_checked;
  goal_checked = Rows-insert row.id row t.focus_goal (λ j w h. h) checks v.goal_checked;
}

relink-IsSound :
    (t : Tables) (rows : List FocusGoalLinkRow)
    → IsSound t
    → All (Linked t) rows
    → IsSound (record t { focus_goal_link = rows })
relink-IsSound t rows v linked = record {
  integral = relink-IsIntegral t rows v.integral linked;
  forest = v.forest;
  finished = v.finished;
  focus_checked = v.focus_checked;
  goal_checked = v.goal_checked;
}

pub insert_goal-IsSound :
    (row : FocusGoalRow) (t : Tables) → IsSound t → IsSound (insert_goal row t).1
unfolding insert_goal
insert_goal-IsSound row t v = kept-guarded IsSound _ _ _ t v λ checked.
    kept-guarded IsSound _ _ _ t v λ fresh. kept-guarded IsSound _ _ _ t v λ there.
      write_goal-IsSound t row v (contains-Has row.focus_object_id t.focus_object there)
        (not-false checked)

pub update_goal_row-IsSound :
    (row : FocusGoalRow) (t : Tables) → IsSound t → IsSound (update_goal_row row t).1
unfolding update_goal_row
update_goal_row-IsSound row t v = elim (Option-cases (lookup row.id t.focus_goal)) [
  | inl gone ↦ rw (gone, update_goal_row) v
  | inr (old, found) ↦
      rw (found, update_goal_row)
        (kept-guarded IsSound _ _ _ t v λ checked. written old found (not-false checked))
]
  where
    written :
        (old : FocusGoalRow)
        → lookup row.id t.focus_goal ≡ some old
        → goal_checks (set_goal row old) ≡ true
        → IsSound (record t { focus_goal = insert row.id (set_goal row old) t.focus_goal })
    written old found checks =
        subst (λ k. IsSound (record t { focus_goal = insert k (set_goal row old) t.focus_goal }))
          (v.integral.goal_ids row.id old found)
          (write_goal-IsSound t (set_goal row old) v (v.integral.owners row.id old found) checks)

pub delete_goal_row-IsSound :
    (id : Uuid) (t : Tables) → IsSound t → IsSound (delete_goal_row id t).1
unfolding delete_goal_row remove_rows erase_all
delete_goal_row-IsSound id t v = elim (Option-cases (lookup id t.focus_goal)) [
  | inl gone ↦ rw (gone, delete_goal_row) v
  | inr (row, found) ↦
      rw (found, delete_goal_row)
        record {
          integral =
              remove_rows-IsIntegral t [] (id ∷ []) v.integral
                ((λ k row p h e m. refl), (λ k row h m. refl));
          forest = v.forest;
          finished = v.finished;
          focus_checked = v.focus_checked;
          goal_checked = Rows-erase_all (id ∷ []) t.focus_goal (λ k row e m h. h) v.goal_checked;
        }
]

pub insert_link-IsSound :
    (goal focus : Uuid) (t : Tables) → IsSound t → IsSound (insert_link goal focus t).1
unfolding insert_link
insert_link-IsSound goal focus t v = elim (Bool-cases (has_link goal focus t.focus_goal_link)) [
  | inl there ↦ rw (there, insert_link, if◌then◌else◌) v
  | inr absent ↦
      rw (absent, insert_link, if◌then◌else◌)
        (kept-guarded IsSound _ _ _ t v λ has_goal. kept-guarded IsSound _ _ _ t v λ has_focus.
          relink-IsSound t (new_link goal focus ∷ t.focus_goal_link) v (
            (contains-Has goal t.focus_goal has_goal, contains-Has focus t.focus_object has_focus),
            v.integral.links,
          ))
]

pub delete_links-IsSound : (goal : Uuid) (t : Tables) → IsSound t → IsSound (delete_links goal t).1
unfolding delete_links
delete_links-IsSound goal t v =
    relink-IsSound t _ v (All-keep_if _ t.focus_goal_link (λ link keep h. h) v.integral.links)

pub delete_link-IsSound :
    (goal focus : Uuid) (t : Tables) → IsSound t → IsSound (delete_link goal focus t).1
unfolding delete_link
delete_link-IsSound goal focus t v =
    relink-IsSound t _ v (All-keep_if _ t.focus_goal_link (λ link keep h. h) v.integral.links)
