-- ===== src/Postgres/Sound/Goals.antt =====
-- The methods of goal_store.go leave the tables sound, whatever faults happen.
use focus_flow.Common.{none, some, Option, List, [], ◌∷◌}
use focus_flow.Model.{Uuid, Goal, CreateGoal, UpdateGoal, GoalFocusLink}
use focus_flow.Postgres.Sql.{Action, transaction}
use focus_flow.Postgres.Sql.Keeps.{
  Keeps, Keeps-pure, Keeps-bind, Triple-transaction, Triple-mono, keeps_rules,
}
use focus_flow.Postgres.GoalStore.{
  link_all, create_goal_rows, create_goal, replace_links, update_goal_rows, update_goal,
  delete_goal, check_unlinked, link_goal_focus, unlink_goal_focus,
}
use focus_flow.Postgres.GoalStore.Reads.{get_focus_base-Keeps, get_goal-Keeps}
use focus_flow.Postgres.Sound.{IsSound}
use focus_flow.Postgres.Sound.Focuses.{insert_event-Keeps}
use focus_flow.Postgres.Sound.Delete.{check_affected-Keeps}
use focus_flow.Postgres.Sound.GoalRows.{
  insert_goal-IsSound, update_goal_row-IsSound, delete_goal_row-IsSound, insert_link-IsSound,
  delete_links-IsSound, delete_link-IsSound,
}

-- The reads, the events and the statements that the methods are made of.
ruleset goal_rules = (
  get_focus_base-Keeps, get_goal-Keeps, insert_event-Keeps, insert_goal-IsSound,
  update_goal_row-IsSound, delete_goal_row-IsSound, insert_link-IsSound, delete_links-IsSound,
  delete_link-IsSound,
)

link_all-Keeps : (goal : Uuid) (foci : List Uuid) → Keeps IsSound (link_all goal foci)
unfolding link_all
link_all-Keeps goal [] = Keeps-pure tt
link_all-Keeps goal (focus ∷ foci) =
    Keeps-bind _ _ (search (keeps_rules, goal_rules)) λ _. link_all-Keeps goal foci

-- A transaction keeps what its statements keep.
Keeps-transaction :
    {A : Type 0} (body : Action A) → Keeps IsSound body → Keeps IsSound (transaction body)
Keeps-transaction body h =
    Triple-transaction body (λ t v. v) (Triple-mono body (λ t v. v) (λ a t v. v) (λ t v. tt) h)

create_goal_rows-Keeps : (input : CreateGoal) → Keeps IsSound (create_goal_rows input)
unfolding create_goal_rows
create_goal_rows-Keeps input = search (keeps_rules, goal_rules, link_all-Keeps) depth 12

pub create_goal-Keeps : (user : Uuid) (input : CreateGoal) → Keeps IsSound (create_goal user input)
unfolding create_goal
create_goal-Keeps user input =
    search (keeps_rules, goal_rules, Keeps-transaction, create_goal_rows-Keeps) depth 12

replace_links-Keeps : (goal : Uuid) (o : Option (List Uuid)) → Keeps IsSound (replace_links goal o)
unfolding replace_links
replace_links-Keeps goal none = Keeps-pure tt
replace_links-Keeps goal (some foci) = search (keeps_rules, goal_rules, link_all-Keeps) depth 12

update_goal_rows-Keeps :
    (input : UpdateGoal) (current : Goal) → Keeps IsSound (update_goal_rows input current)
unfolding update_goal_rows
update_goal_rows-Keeps input current =
    search (keeps_rules, goal_rules, replace_links-Keeps) depth 12

pub update_goal-Keeps : (user : Uuid) (input : UpdateGoal) → Keeps IsSound (update_goal user input)
unfolding update_goal
update_goal-Keeps user input =
    search (keeps_rules, goal_rules, Keeps-transaction, update_goal_rows-Keeps) depth 12

pub delete_goal-Keeps : (user id : Uuid) → Keeps IsSound (delete_goal user id)
unfolding delete_goal
delete_goal-Keeps user id = search (keeps_rules, goal_rules, check_affected-Keeps) depth 12

pub link_goal_focus-Keeps :
    (user : Uuid) (link : GoalFocusLink) → Keeps IsSound (link_goal_focus user link)
unfolding link_goal_focus
link_goal_focus-Keeps user link = search (keeps_rules, goal_rules) depth 12

pub unlink_goal_focus-Keeps :
    (user : Uuid) (link : GoalFocusLink) → Keeps IsSound (unlink_goal_focus user link)
unfolding unlink_goal_focus check_unlinked
unlink_goal_focus-Keeps user link = search (keeps_rules, goal_rules) depth 12
