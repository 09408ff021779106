-- ===== src/Tests/Stores.antt =====
-- The store in memory: its histories, updates, deletions, aggregates and pages.
use focus_flow.Common.{
  ◌≤◌, ◌≡◌, refl, ◌⊎◌, ◌↔◌, true, none, some, List, [], ◌∷◌, lookup, Marks, arith,
}
use focus_flow.Storage.{ok, err, overflow, not_found, invalid_hierarchy}
use focus_flow.Forest.{Below}
use focus_flow.Model.{Uuid, FocusFields, CreateFocus, GoalFocusLink, node, nil}
use focus_flow.Model.Int.{pos}
use focus_flow.Fake.State.{Store, clone_focus}
use focus_flow.Fake.Valid.{parents, IsValid, seed, root_id}
use focus_flow.Fake.Hierarchy.{is_descendant, ensure_can_move}
use focus_flow.Fake.Hierarchy.Descent.{MoveVerdict, ensure_can_move-verdict}
use focus_flow.Fake.Focuses
use focus_flow.Fake.Focuses.{check_move}
use focus_flow.Fake.Focuses.Created.{alone, get_focus-create_focus}
use focus_flow.Fake.Focuses.Update.{Effect, update_focus-cases}
use focus_flow.Fake.Focuses.Delete.{Without, delete_focus-cases}
use focus_flow.Fake.Aggregate.{goal_aggregate, focus_aggregate}
use focus_flow.Fake.Aggregate.Progress.{statuses, IsProgress, goal_aggregate-progress}
use focus_flow.Fake.Aggregate.Tree.{OccursAt, LevelsBelow, focus_aggregate-levels}
use focus_flow.Fake.Goals.{is_linked, link_goal_focus, unlink_goal_focus}
use focus_flow.Fake.Goals.Links.{
  links, link_goal_focus-link_goal_focus, unlink_goal_focus-link_goal_focus,
}
use focus_flow.Fake.Calls.{delete_focus, create_flow, create_focus, update_focus, run, start, next}
use focus_flow.Fake.Calls.History.{Reach-IsValid, Reach-ends}
use focus_flow.Fake.Calls.Reads.{run_failed}
use focus_flow.Fake.Paging.Walk.{pages, pages_all}
use focus_flow.Tests.Sample.{text, user, env, sample, sample-IsValid, to_grandchild, to_flow}

abbrev new_flow : CreateFocus
new_flow = record {
  parent_id = none;
  name = "flow";
  status = none;
  tags = [];
  description = none;
  feedback = none;
  color = none;
}

-- A history: a flow is created, then the flow of the seed deleted.
abbrev later : Store
later = (run text user env (create_flow new_flow) seed).1

Reach-IsValid_example :
    IsValid (run text user (record env { new_id = 7 }) (create_focus new_flow) seed).1
Reach-IsValid_example =
    Reach-IsValid text user (next start (record env { new_id = 7 }) (create_focus new_flow) refl)

Reach-ends_example : ¬ ((run text user env (delete_focus root_id) later).0 ≡ overflow)
Reach-ends_example =
    Reach-ends text user (next start env (create_flow new_flow) refl) env (delete_focus root_id)

delete_focus-cases_example :
    ((lookup 2 sample.focuses ≡ none)
      × (Focuses.delete_focus user 2 env sample ≡ (err not_found, sample)))
    ⊎ ((ds : List Uuid) × Marks (Below (parents sample.focuses) 2) ds
        × ((Focuses.delete_focus user 2 env sample).0 ≡ ok tt)
        × Without ds sample (Focuses.delete_focus user 2 env sample).1)
delete_focus-cases_example = delete_focus-cases sample sample-IsValid user 2 env

update_focus-cases_example :
    ((lookup 3 sample.focuses ≡ none)
      × (Focuses.update_focus user to_flow env sample ≡ (err not_found, sample)))
    ⊎ ((old : FocusFields) × (lookup 3 sample.focuses ≡ some old)
        × Effect sample to_flow env old (Focuses.update_focus user to_flow env sample))
update_focus-cases_example = update_focus-cases sample sample-IsValid user to_flow env

ensure_can_move-verdict_example : MoveVerdict sample 1 3 (ensure_can_move sample 1 3)
ensure_can_move-verdict_example = ensure_can_move-verdict sample (sample-IsValid.forest) 1 3

-- The flow 1 cannot go below its grandchild 3.
refused_cycle : Focuses.update_focus user to_grandchild env sample ≡ (err invalid_hierarchy, sample)
unfolding Focuses.update_focus check_move ensure_can_move is_descendant
refused_cycle = refl

run_failed_example : (run text user env (update_focus to_grandchild) sample).1 ≡ sample
unfolding run Focuses.update_focus check_move ensure_can_move is_descendant
run_failed_example =
    run_failed text user env (update_focus to_grandchild) sample invalid_hierarchy refl

focus_aggregate-levels_example :
    OccursAt (focus_aggregate text sample true 2 1) 2 3
    ↔ ((2 ≤ 2) × LevelsBelow (parents sample.focuses) 1 2 3)
focus_aggregate-levels_example =
    focus_aggregate-levels text sample sample-IsValid true 2 2 1 3 (λ gone. cc)

goal_aggregate-progress_example :
    IsProgress (statuses sample.focuses (2 ∷ 4 ∷ 8 ∷ 3 ∷ [])) (goal_aggregate sample 5).progress
goal_aggregate-progress_example = goal_aggregate-progress sample 5 _ refl

pages_all_example : pages text 4 (2 ∷ 5 ∷ 7 ∷ []) (pos 2) none ≡ 2 ∷ 5 ∷ 7 ∷ []
pages_all_example =
    pages_all text (2 ∷ 5 ∷ 7 ∷ []) (pos 2) 4
      (((λ e. cc), ((λ e. cc), tt)), (((λ e. cc), tt), (tt, tt))) (omega arith)

abbrev new_link : GoalFocusLink
new_link = record { goal_id = 5; focus_id = 1 }

link_goal_focus-link_goal_focus_example :
    (link_goal_focus user new_link env (link_goal_focus user new_link env sample).1).1
    ≡ (link_goal_focus user new_link env sample).1
link_goal_focus-link_goal_focus_example =
    link_goal_focus-link_goal_focus user new_link sample env env ((λ gone. cc), (λ gone. cc))

unlink_goal_focus-link_goal_focus_example :
    links (unlink_goal_focus user new_link env (link_goal_focus user new_link env sample).1).1 5
    ≡ links sample 5
unfolding is_linked
unlink_goal_focus-link_goal_focus_example =
    unlink_goal_focus-link_goal_focus user new_link sample env env ((λ gone. cc), (λ gone. cc)) refl

get_focus-create_focus_example :
    ((Focuses.create_focus user new_flow env sample).0
      ≡ ok (node (clone_focus (Focuses.new_focus env new_flow)) nil))
    × ((Focuses.get_focus text user
          (alone 6)
          env
          (Focuses.create_focus user new_flow env sample).1).0
        ≡ (Focuses.create_focus user new_flow env sample).0)
get_focus-create_focus_example = get_focus-create_focus text user new_flow env env sample refl
