-- ===== src/Fake/Hierarchy.antt =====
-- backend/internal/storage/fake/store.go: the recursions along the hierarchy. Each takes fuel, the
-- number of calls that may be nested; `none` means that it ran out, where Go goes on for ever.
pub mod Descent
pub mod Removal
pub mod Subtree
pub mod Delete
use focus_flow.Common.{
  ℕ, zero, suc, Bool, true, false, Option, none, some, List, [], ◌∷◌, Map, lookup, erase, keys,
  length, ◌==◌, if◌then◌else◌, not, keep_if,
}
use focus_flow.Storage.{Outcome, ok, err, overflow, not_found, invalid_hierarchy}
use focus_flow.Model.{Uuid, FocusFields, Goal}
use focus_flow.Fake.State.{Store}
use focus_flow.Fake.Aggregate.{has_parent}

-- isDescendantLocked: is `ancestor` above `candidate`?
unfoldable pub is_descendant : ℕ → Map FocusFields → Uuid → Uuid → Option Bool
is_descendant zero focuses candidate ancestor = none
is_descendant (suc fuel) focuses candidate ancestor = elim (lookup candidate focuses) [
  | none ↦ some false
  | some focus ↦ elim focus.parent_id [
    | none ↦ some false
    | some parent ↦
        let rest = is_descendant fuel focuses parent ancestor in
        if parent == ancestor then some true else rest
  ]
]

abbrev pub refuse_descendant : Option Bool → Outcome (Unit {0})
refuse_descendant none = overflow
refuse_descendant (some true) = err invalid_hierarchy
refuse_descendant (some false) = ok tt

-- ensureCanMoveFocusLocked
unfoldable pub ensure_can_move : Store → Uuid → Uuid → Outcome (Unit {0})
ensure_can_move store id parent =
    if id == parent then err invalid_hierarchy else elim (lookup parent store.focuses) [
      | none ↦ err not_found
      | some _ ↦ refuse_descendant (is_descendant (length store.focuses) store.focuses parent id)
    ]

-- The loop over `store.goals` in deleteFocusLocked: a goal of the focus goes, and the others lose
-- their links to it.
unfoldable pub detach_goals : Uuid → Map Goal → Map Goal
detach_goals id [] = []
detach_goals id ((k, goal) ∷ goals) =
    if goal.owner_focus_id == id
    then detach_goals id goals
    else (
      k,
      record goal {
        linked_focus_ids = keep_if (λ linked. not (linked == id)) goal.linked_focus_ids;
      },
    )
      ∷ detach_goals id goals

-- The loop over `store.focuses` in deleteFocusLocked, over the recursive call. It meets each key
-- that the map held at its start, unless the key has been deleted before it is reached.
unfoldable pub delete_children :
    (Uuid → Store → Option Store) → Uuid → List Uuid → Store → Option Store
delete_children delete id [] store = some store
delete_children delete id (k ∷ ks) store = elim (lookup k store.focuses) [
  | none ↦ delete_children delete id ks store
  | some focus ↦ elim (has_parent id focus.parent_id) [
    | true ↦ elim (delete focus.id store) [
      | none ↦ none
      | some store' ↦ delete_children delete id ks store'
    ]
    | false ↦ delete_children delete id ks store
  ]
]

-- What deleteFocusLocked does behind its first loop.
unfoldable pub remove_focus : Uuid → Store → Store
unfolding detach_goals
remove_focus id store = record {
  focuses = erase id store.focuses;
  goals = detach_goals id store.goals;
}

-- deleteFocusLocked
unfoldable pub delete_focus_locked : ℕ → Uuid → Store → Option Store
delete_focus_locked zero id store = none
delete_focus_locked (suc fuel) id store =
    elim (delete_children (delete_focus_locked fuel) id (keys store.focuses) store) [
      | none ↦ none
      | some store' ↦ some (remove_focus id store')
    ]
