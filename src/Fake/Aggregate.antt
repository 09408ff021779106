-- ===== src/Fake/Aggregate.antt =====
-- backend/internal/storage/fake/store.go: what a method returns of a goal or a focus, with the
-- progress computed and the goals and children attached; sorting; and pages.
pub mod Progress
pub mod Tree
use focus_flow.Common.{
  ℕ, zero, suc, ◌+◌, String, Bool, false, ◌||◌, Option, none, some, List, [], ◌∷◌, ◌++◌, Map,
  lookup, ◌==◌, if◌then◌else◌, str_eq, str_lt, sort_slice, length,
}
use focus_flow.Model.{
  Uuid, FocusStatus, done, cancelled, GoalProgress, Goal, FocusFields, Focus, node, nil, fields,
  to_foci, Page, PageRequest,
}
use focus_flow.Fake.State.{
  Store, zero_focus, zero_goal, no_progress, get_or_zero, clone_focus, clone_goal,
}
use focus_flow.Fake.Paging.{PageResult, page_items}

-- `counts[status]++`
unfoldable pub bump : FocusStatus → List (FocusStatus × ℕ) → List (FocusStatus × ℕ)
bump status [] = (status, 1) ∷ []
bump status ((s, n) ∷ counts) =
    if str_eq status s then (s, n + 1) ∷ counts else (s, n) ∷ bump status counts

-- `if test { counter++ }`
abbrev pub count_if : Bool → ℕ → ℕ
count_if test n = if test then n + 1 else n

-- One linked focus that is there, by its status.
unfoldable pub count_status : FocusStatus → GoalProgress → GoalProgress
unfolding bump
count_status status p = record {
  linked_count = p.linked_count + 1;
  status_counts = bump status p.status_counts;
  terminal_count = count_if (str_eq status done || str_eq status cancelled) p.terminal_count;
  done_count = count_if (str_eq status done) p.done_count;
}

-- The loop over the links; a link to a focus that is not there is skipped.
unfoldable pub count_links : Map FocusFields → List Uuid → GoalProgress → GoalProgress
unfolding count_status
count_links focuses [] p = p
count_links focuses (id ∷ ids) p =
    count_links focuses ids
      (elim (lookup id focuses) [ none ↦ p | some focus ↦ count_status focus.status p ])

-- goalAggregateLocked
unfoldable pub goal_aggregate : Store → Uuid → Goal
unfolding count_links
goal_aggregate store id =
    let goal = clone_goal (get_or_zero zero_goal (lookup id store.goals)) in
    record goal { progress = count_links store.focuses goal.linked_focus_ids no_progress }

-- The loop that collects the goals of one focus.
unfoldable pub owned_goals : Store → Uuid → Map Goal → List Goal
owned_goals store owner [] = []
owned_goals store owner ((k, goal) ∷ goals) =
    if goal.owner_focus_id == owner
    then goal_aggregate store goal.id ∷ owned_goals store owner goals
    else owned_goals store owner goals

-- `focus.ParentID != nil && *focus.ParentID == parentID`
abbrev pub has_parent : Uuid → Option Uuid → Bool
has_parent id none = false
has_parent id (some p) = p == id

-- The loop of childrenLocked, over the aggregate that it calls.
unfoldable pub collect_children : (Uuid → Focus) → Uuid → Map FocusFields → List Focus
collect_children aggregate parent [] = []
collect_children aggregate parent ((k, focus) ∷ focuses) =
    if has_parent parent focus.parent_id
    then aggregate focus.id ∷ collect_children aggregate parent focuses
    else collect_children aggregate parent focuses

-- `Page` of what `pageItems` cut out.
abbrev pub to_page {ℓ} : {T : Type ℓ} → PageResult T → Page T
to_page paged = record {
  items = paged.items;
  count = length paged.items;
  next_cursor = paged.next_cursor;
  has_more = paged.has_more;
}

-- The text of an identifier (`uuid.UUID.String`) is a parameter.
module _ (id_string : Uuid → String) where
  unfoldable pub sort_focuses : List Focus → List Focus
  sort_focuses = sort_slice λ a b. str_lt (id_string (fields a).id) (id_string (fields b).id)

  unfoldable pub sort_goals : List Goal → List Goal
  sort_goals = sort_slice λ a b. str_lt (id_string a.id) (id_string b.id)

  -- The focus itself, with its goals if they are asked for.
  unfoldable pub focus_fields : Store → Bool → Uuid → FocusFields
  unfolding owned_goals sort_goals
  focus_fields store include_goals id =
      let focus = clone_focus (get_or_zero zero_focus (lookup id store.focuses)) in
      if include_goals
      then record focus { goals = sort_goals (focus.goals ++ owned_goals store id store.goals) }
      else focus

  -- focusAggregateLocked; its depth is at most 0 if it is `zero`.
  unfoldable pub focus_aggregate : Store → Bool → ℕ → Uuid → Focus
  unfolding focus_fields sort_focuses collect_children
  focus_aggregate store include_goals zero id = node (focus_fields store include_goals id) nil
  focus_aggregate store include_goals (suc depth) id = node (focus_fields store include_goals id) (
      to_foci (
        sort_focuses
          (collect_children (focus_aggregate store include_goals depth) id store.focuses)))

  unfoldable pub children_locked : Store → Bool → ℕ → Uuid → List Focus
  unfolding focus_aggregate
  children_locked store include_goals depth parent =
      sort_focuses
        (collect_children (focus_aggregate store include_goals depth) parent store.focuses)

  unfoldable pub focus_page : List Focus → PageRequest → Page Focus
  unfolding sort_focuses page_items
  focus_page items request =
      to_page (page_items (sort_focuses items) request λ f. id_string (fields f).id)

  unfoldable pub goal_page : List Goal → PageRequest → Page Goal
  unfolding sort_goals page_items
  goal_page items request = to_page (page_items (sort_goals items) request λ g. id_string g.id)
