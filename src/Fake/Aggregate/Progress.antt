-- ===== src/Fake/Aggregate/Progress.antt =====
-- The progress of a goal.
use focus_flow.Common.{
  ℕ, ◌+◌, ◌≤◌, ◌≡◌, Bool, ◌||◌, Option, none, some, List, [], ◌∷◌, arith, Map, lookup, length,
  keep_if, str_eq, str_eq_iff, if◌then◌else◌,
}
use focus_flow.Model.{Uuid, FocusStatus, FocusFields, GoalProgress, Goal, done, cancelled}
use focus_flow.Fake.State.{Store, no_progress}
use focus_flow.Fake.Aggregate.{bump, count_status, count_links, goal_aggregate}

-- The statuses of the linked focuses that are there.
pub statuses : Map FocusFields → List Uuid → List FocusStatus
statuses focuses [] = []
statuses focuses (id ∷ ids) = elim (lookup id focuses) [
  | none ↦ statuses focuses ids
  | some focus ↦ focus.status ∷ statuses focuses ids
]

abbrev pub is_terminal : FocusStatus → Bool
is_terminal status = str_eq status done || str_eq status cancelled

-- `counts[status]`, 0 if it is missing.
pub count_of : FocusStatus → List (FocusStatus × ℕ) → ℕ
count_of status [] = 0
count_of status ((s, n) ∷ counts) = if str_eq status s then n else count_of status counts

abbrev pub tally : (FocusStatus → Bool) → List FocusStatus → ℕ
tally test list = length (keep_if test list)

-- The sum of all counts.
pub sum_counts : List (FocusStatus × ℕ) → ℕ
sum_counts [] = 0
sum_counts ((s, n) ∷ counts) = n + sum_counts counts

count_of-bump :
    (t s : FocusStatus) (counts : List (FocusStatus × ℕ))
    → count_of t (bump s counts) ≡ count_of t counts + (if str_eq t s then 1 else 0)
unfolding count_of bump
count_of-bump t s [] = ground arith
count_of-bump t s ((u, n) ∷ counts) =
    ground (arith, str_eq_iff t s, str_eq_iff t u, str_eq_iff s u, count_of-bump t s counts)

sum_counts-bump :
    (s : FocusStatus) (counts : List (FocusStatus × ℕ))
    → sum_counts (bump s counts) ≡ sum_counts counts + 1
unfolding sum_counts bump
sum_counts-bump s [] = ground arith
sum_counts-bump s ((u, n) ∷ counts) = ground (arith, sum_counts-bump s counts)

-- `p` after counting the statuses of a list on top of `q`.
pub record Counts (list : List FocusStatus) (q p : GoalProgress) : Type 0 where
  pub linked : p.linked_count ≡ q.linked_count + length list
  pub terminal : p.terminal_count ≡ q.terminal_count + tally is_terminal list
  pub finished : p.done_count ≡ q.done_count + tally (λ s. str_eq s done) list
  pub by_status :
      (t : FocusStatus)
      → count_of t p.status_counts ≡ count_of t q.status_counts + tally (str_eq t) list
  pub total : sum_counts p.status_counts ≡ sum_counts q.status_counts + length list

count_status-Counts : (s : FocusStatus) (q : GoalProgress) → Counts (s ∷ []) q (count_status s q)
unfolding count_status
count_status-Counts s q = record {
  linked = omega arith;
  terminal = ground arith;
  finished = ground arith;
  by_status = λ t. ground (arith, count_of-bump t s q.status_counts);
  total = omega (arith, sum_counts-bump s q.status_counts);
}

Counts-trans :
    (s : FocusStatus) (list : List FocusStatus) (q r p : GoalProgress)
    → Counts (s ∷ []) q r
    → Counts list r p
    → Counts (s ∷ list) q p
Counts-trans s list q r p a b = record {
  linked = omega (arith, a.linked, b.linked);
  terminal = ground (arith, a.terminal, b.terminal);
  finished = ground (arith, a.finished, b.finished);
  by_status = λ t. ground (arith, a.by_status t, b.by_status t);
  total = omega (arith, a.total, b.total);
}

count_links-Counts :
    (focuses : Map FocusFields) (ids : List Uuid) (q : GoalProgress)
    → Counts (statuses focuses ids) q (count_links focuses ids q)
unfolding count_links statuses
count_links-Counts focuses [] q = record {
  linked = omega arith;
  terminal = omega arith;
  finished = omega arith;
  by_status = λ t. omega arith;
  total = omega arith;
}
count_links-Counts focuses (id ∷ ids) q = go (count_links-Counts focuses ids) (lookup id focuses)
  where
    go :
        ((r : GoalProgress) → Counts (statuses focuses ids) r (count_links focuses ids r))
        → (o : Option FocusFields)
        → Counts
            (elim o [
              | none ↦ statuses focuses ids
              | some focus ↦ focus.status ∷ statuses focuses ids
            ])
            q
            (count_links focuses ids
              (elim o [ none ↦ q | some focus ↦ count_status focus.status q ]))
    go rest none = rest q
    go rest (some focus) =
        Counts-trans focus.status (statuses focuses ids) q (count_status focus.status q) _
          (count_status-Counts focus.status q) (rest (count_status focus.status q))

tally-le-length :
    (test : FocusStatus → Bool) (list : List FocusStatus) → tally test list ≤ length list
tally-le-length test [] = omega arith
tally-le-length test (s ∷ list) = ground (arith, tally-le-length test list)

done-le-terminal :
    (list : List FocusStatus) → tally (λ s. str_eq s done) list ≤ tally is_terminal list
done-le-terminal [] = omega arith
done-le-terminal (s ∷ list) = ground (arith, done-le-terminal list)

-- What the progress of a goal with such links says.
pub record IsProgress (list : List FocusStatus) (p : GoalProgress) : Type 0 where
  pub linked : p.linked_count ≡ length list
  pub terminal : p.terminal_count ≡ tally is_terminal list
  pub finished : p.done_count ≡ tally (λ s. str_eq s done) list
  pub by_status : (t : FocusStatus) → count_of t p.status_counts ≡ tally (str_eq t) list
  pub total : sum_counts p.status_counts ≡ p.linked_count
  pub done_within : p.done_count ≤ p.terminal_count
  pub terminal_within : p.terminal_count ≤ p.linked_count

-- The progress of a goal counts the links to focuses that exist: in all, those done or cancelled,
-- those done, and those of each status; the counts by status add up to all, and done is at most
-- terminal, which is at most linked.
pub goal_aggregate-progress :
    (store : Store) (id : Uuid) (goal : Goal)
    → lookup id store.goals ≡ some goal
    → IsProgress (statuses store.focuses goal.linked_focus_ids) (goal_aggregate store id).progress
unfolding goal_aggregate count_of sum_counts
goal_aggregate-progress store id goal found =
    let c = count_links-Counts store.focuses goal.linked_focus_ids no_progress in
    let list = statuses store.focuses goal.linked_focus_ids in
    rw found (record {
      linked = omega (arith, c.linked);
      terminal = omega (arith, c.terminal);
      finished = omega (arith, c.finished);
      by_status = λ t. omega (arith, c.by_status t);
      total = omega (arith, c.total, c.linked);
      done_within = omega (arith, c.finished, c.terminal, done-le-terminal list);
      terminal_within = omega (arith, c.terminal, c.linked, tally-le-length is_terminal list);
    })
