-- ===== src/Fake/Goals.antt =====
-- backend/internal/storage/fake/store.go: the methods of `storage.GoalStore`. The identifier of the
-- user, which the store does not read, is their first argument.
pub mod Links
use focus_flow.Common.{
  ℕ, String, Bool, true, false, none, some, List, [], ◌∷◌, ◌++◌, lookup, insert, erase, is_some,
  or_keep, ◌==◌, if◌then◌else◌, not, keep_if,
}
use focus_flow.Storage.{ok, err, not_found}
use focus_flow.Model.{Uuid, Goal, CreateGoal, UpdateGoal, GoalFocusLink, Page, PageRequest}
use focus_flow.Fake.State.{Env, Method, no_progress}
use focus_flow.Fake.Aggregate.{goal_aggregate, owned_goals, goal_page}
use focus_flow.Fake.Focuses.{nullable}

abbrev pub new_goal : Env → CreateGoal → Goal
new_goal env input = record {
  id = env.new_id;
  owner_focus_id = input.owner_focus_id;
  goal_type = input.goal_type;
  description = input.description;
  status_override = input.status_override;
  linked_focus_ids = [] ++ input.linked_focus_ids;
  progress = no_progress;
  created_at = env.now;
  updated_at = env.now;
  finished_at = none;
}

-- `store.goals[id] = goal; return store.goalAggregateLocked(id), nil`
unfoldable pub save_goal : Uuid → Goal → Method Goal
unfolding goal_aggregate
save_goal id goal store =
    let store' = record store { goals = insert id goal store.goals } in
    (ok (goal_aggregate store' id), store')

unfoldable pub create_goal : Uuid → CreateGoal → Env → Method Goal
unfolding save_goal
create_goal user input env store =
    if is_some (lookup input.owner_focus_id store.focuses)
    then save_goal env.new_id (new_goal env input) store
    else (err not_found, store)

unfoldable pub get_goal : Uuid → Uuid → Env → Method Goal
unfolding goal_aggregate
get_goal user id env store =
    if is_some (lookup id store.goals)
    then (ok (goal_aggregate store id), store)
    else (err not_found, store)

-- The assignments of UpdateGoal.
abbrev pub updated_goal : UpdateGoal → ℕ → Goal → Goal
updated_goal input now goal = record goal {
  goal_type = or_keep input.goal_type goal.goal_type;
  description = or_keep input.description goal.description;
  status_override = nullable input.status_override goal.status_override;
  linked_focus_ids = or_keep input.linked_focus_ids goal.linked_focus_ids;
  updated_at = now;
}

unfoldable pub update_goal : Uuid → UpdateGoal → Env → Method Goal
unfolding save_goal
update_goal user input env store = elim (lookup input.id store.goals) [
  | none ↦ (err not_found, store)
  | some goal ↦ save_goal input.id (updated_goal input env.now goal) store
]

unfoldable pub delete_goal : Uuid → Uuid → Env → Method (Unit {0})
delete_goal user id env store =
    if is_some (lookup id store.goals)
    then (ok tt, record store { goals = erase id store.goals })
    else (err not_found, store)

-- The loop that looks for a link.
unfoldable pub is_linked : Uuid → List Uuid → Bool
is_linked id [] = false
is_linked id (x ∷ xs) = if x == id then true else is_linked id xs

unfoldable pub link_goal_focus : Uuid → GoalFocusLink → Env → Method Goal
unfolding is_linked save_goal
link_goal_focus user link env store = elim (lookup link.goal_id store.goals) [
  | none ↦ (err not_found, store)
  | some goal ↦ elim (lookup link.focus_id store.focuses) [
    | none ↦ (err not_found, store)
    | some _ ↦
        if is_linked link.focus_id goal.linked_focus_ids
        then (ok (goal_aggregate store link.goal_id), store)
        else save_goal link.goal_id
            (record goal {
              linked_focus_ids = goal.linked_focus_ids ++ link.focus_id ∷ [];
              updated_at = env.now;
            })
            store
  ]
]

unfoldable pub unlink_goal_focus : Uuid → GoalFocusLink → Env → Method Goal
unfolding save_goal
unlink_goal_focus user link env store = elim (lookup link.goal_id store.goals) [
  | none ↦ (err not_found, store)
  | some goal ↦
      save_goal link.goal_id
        (record goal {
          linked_focus_ids = keep_if (λ id. not (id == link.focus_id)) goal.linked_focus_ids;
          updated_at = env.now;
        })
        store
]

module _ (id_string : Uuid → String) where
  unfoldable pub list_focus_goals : Uuid → Uuid → PageRequest → Env → Method (Page Goal)
  unfolding owned_goals goal_page
  list_focus_goals user focus page env store = elim (lookup focus store.focuses) [
    | none ↦ (err not_found, store)
    | some _ ↦ (ok (goal_page id_string (owned_goals store focus store.goals) page), store)
  ]
