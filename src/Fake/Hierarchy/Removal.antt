-- ===== src/Fake/Hierarchy/Removal.antt =====
-- The removal of a list of focuses, one after the other, as a description of the store behind it.
use focus_flow.Common.{
  false, erase-Distinct, ◌≡◌, refl, ap, ◌∙◌, sym, true, not, Option, none, some, List, [], ◌∷◌,
  ◌++◌, arith, Map, lookup, lookup-erase, Distinct, ◌==◌, if◌then◌else◌, member, keep_if,
  keep_if-keep_if, keep_if-ext, keep_if_all,
}
use focus_flow.Model.{Uuid, Goal}
use focus_flow.Fake.State.{Store}
use focus_flow.Fake.Hierarchy.{detach_goals, remove_focus}

unfoldable pub remove_all : List Uuid → Store → Store
remove_all [] store = store
remove_all (d ∷ ds) store = remove_all ds (remove_focus d store)

-- A goal that has lost the links to a list of focuses.
abbrev pub unlink_all : List Uuid → Goal → Goal
unlink_all ds goal = record goal {
  linked_focus_ids = keep_if (λ y. not (member y ds)) goal.linked_focus_ids;
}

-- What becomes of an entry of the goals.
abbrev pub surviving_goal : List Uuid → Option Goal → Option Goal
surviving_goal ds none = none
surviving_goal ds (some goal) =
    if member goal.owner_focus_id ds then none else some (unlink_all ds goal)

pub remove_all-append :
    (ds es : List Uuid) (store : Store)
    → remove_all (ds ++ es) store ≡ remove_all es (remove_all ds store)
unfolding remove_all
remove_all-append [] es store = refl
remove_all-append (d ∷ ds) es store = remove_all-append ds es (remove_focus d store)

-- The focuses that are left.
pub lookup-remove_all :
    (x : Uuid) (ds : List Uuid) (store : Store)
    → lookup x (remove_all ds store).focuses
      ≡ (if member x ds then none else lookup x store.focuses)
unfolding remove_all remove_focus
lookup-remove_all x [] store = refl
lookup-remove_all x (d ∷ ds) store =
    ground (arith, lookup-remove_all x ds (remove_focus d store), lookup-erase x d store.focuses)

same_links :
    (d : Uuid) (xs : List Uuid)
    → keep_if (λ linked. not (linked == d)) xs ≡ keep_if (λ y. not (member y (d ∷ []))) xs
same_links d xs = keep_if-ext _ _ xs (λ y. ground arith)

surviving_goal_nil : (o : Option Goal) → surviving_goal [] o ≡ o
surviving_goal_nil none = refl
surviving_goal_nil (some goal) = λ i.
    some (record goal {
      linked_focus_ids = keep_if_all (λ y. true) goal.linked_focus_ids (λ y. refl) i;
    })

lookup-detach_goals :
    (k d : Uuid) (goals : Map Goal)
    → Distinct goals
    → lookup k (detach_goals d goals) ≡ surviving_goal (d ∷ []) (lookup k goals)
unfolding detach_goals
lookup-detach_goals k d [] h = refl
lookup-detach_goals k d ((j, g) ∷ goals) h =
    ground (arith, same_links d g.linked_focus_ids, lookup-detach_goals k d goals h.1)

detach_goals-Distinct :
    (d : Uuid) (goals : Map Goal) → Distinct goals → Distinct (detach_goals d goals)
unfolding detach_goals
detach_goals-Distinct d [] h = tt
detach_goals-Distinct d ((j, g) ∷ goals) h =
    ground (arith, detach_goals-Distinct d goals h.1, lookup-detach_goals j d goals h.1)

unlink_all-cons :
    (d : Uuid) (ds : List Uuid) (goal : Goal)
    → unlink_all ds (unlink_all (d ∷ []) goal) ≡ unlink_all (d ∷ ds) goal
unlink_all-cons d ds goal = λ i. record goal { linked_focus_ids = same i }
  where
    same :
        keep_if
          (λ y. not (member y ds))
          (keep_if (λ y. not (member y (d ∷ []))) goal.linked_focus_ids)
        ≡ keep_if (λ y. not (member y (d ∷ ds))) goal.linked_focus_ids
    same =
        keep_if-keep_if (λ y. not (member y ds)) (λ y. not (member y (d ∷ [])))
          goal.linked_focus_ids
        ∙ keep_if-ext _ _ goal.linked_focus_ids (λ y. ground arith)

surviving_goal-cons :
    (d : Uuid) (ds : List Uuid) (o : Option Goal)
    → surviving_goal ds (surviving_goal (d ∷ []) o) ≡ surviving_goal (d ∷ ds) o
surviving_goal-cons d ds none = refl
surviving_goal-cons d ds (some goal) = ground (arith, unlink_all-cons d ds goal)

-- The goals that are left, and what they link.
pub goals-remove_all :
    (k : Uuid) (ds : List Uuid) (store : Store)
    → Distinct store.goals
    → lookup k (remove_all ds store).goals ≡ surviving_goal ds (lookup k store.goals)
unfolding remove_all remove_focus
goals-remove_all k [] store h = sym (surviving_goal_nil (lookup k store.goals))
goals-remove_all k (d ∷ ds) store h =
    goals-remove_all k ds (remove_focus d store) (detach_goals-Distinct d store.goals h)
    ∙ ap (surviving_goal ds) (lookup-detach_goals k d store.goals h)
    ∙ surviving_goal-cons d ds (lookup k store.goals)

pub remove_all-focuses-Distinct :
    (ds : List Uuid) (store : Store)
    → Distinct store.focuses
    → Distinct (remove_all ds store).focuses
unfolding remove_all remove_focus
remove_all-focuses-Distinct [] store h = h
remove_all-focuses-Distinct (d ∷ ds) store h =
    remove_all-focuses-Distinct ds (remove_focus d store) (erase-Distinct d store.focuses h)

pub remove_all-goals-Distinct :
    (ds : List Uuid) (store : Store) → Distinct store.goals → Distinct (remove_all ds store).goals
unfolding remove_all remove_focus
remove_all-goals-Distinct [] store h = h
remove_all-goals-Distinct (d ∷ ds) store h =
    remove_all-goals-Distinct ds (remove_focus d store) (detach_goals-Distinct d store.goals h)

-- A goal that is left was there, with the same fields but for its links, and its owner stays.
pub surviving_goal-inv :
    (ds : List Uuid) (o : Option Goal) (h : Goal)
    → surviving_goal ds o ≡ some h
    → (g : Goal) × (o ≡ some g) × (h ≡ unlink_all ds g) × (member g.owner_focus_id ds ≡ false)
surviving_goal-inv ds none h e = cc
surviving_goal-inv ds (some g) h e = (g, refl, ground arith, ground arith)
