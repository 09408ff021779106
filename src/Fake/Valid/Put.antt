-- ===== src/Fake/Valid/Put.antt =====
-- The single writes to the store and its well-formedness.
use focus_flow.Common.{
  ℕ, ◌≡◌, Option, none, some, arith, lookup, insert, erase, lookup-insert, lookup-erase,
  insert-Distinct, erase-Distinct,
}
use focus_flow.Forest.{Rooted, Below}
use focus_flow.Forest.Change.{Reparents, reparent-IsForest}
use focus_flow.Model.{Uuid, FocusFields, Goal}
use focus_flow.Fake.State.{Store}
use focus_flow.Fake.Valid.{parents, IsValid}

-- The parent that a write gives a focus is in the forest, and not below the focus.
abbrev pub CanHold : Store → Uuid → Option Uuid → Type 0
CanHold store id q =
    (p : Uuid)
    → q ≡ some p
    → (d : ℕ) × Rooted (parents store.focuses) d p × (¬ Below (parents store.focuses) id p)

module _ (store : Store) (v : IsValid store) where
  insert-Reparents :
      (id : Uuid) (f : FocusFields)
      → Reparents (parents store.focuses) id f.parent_id (parents (insert id f store.focuses))
  insert-Reparents id f = record {
    here = ground (arith, lookup-insert id id f store.focuses);
    elsewhere = λ x differ. ground (arith, lookup-insert x id f store.focuses);
  }

  -- `store.focuses[id] = f`
  pub put_focus-IsValid :
      (id : Uuid) (f : FocusFields)
      → f.id ≡ id
      → CanHold store id f.parent_id
      → IsValid (record store { focuses = insert id f store.focuses })
  put_focus-IsValid id f own can = record {
    focus_keys = insert-Distinct id f store.focuses v.focus_keys;
    goal_keys = v.goal_keys;
    focus_ids = λ k g e. ground (arith, lookup-insert k id f store.focuses, v.focus_ids k g);
    goal_ids = v.goal_ids;
    forest = reparent-IsForest v.forest id f.parent_id (insert-Reparents id f) can;
    owners = λ k g e gone.
        ground (arith, lookup-insert g.owner_focus_id id f store.focuses, v.owners k g e);
  }

  -- `store.goals[id] = g`
  pub put_goal-IsValid :
      (id : Uuid) (g : Goal)
      → g.id ≡ id
      → ¬ (lookup g.owner_focus_id store.focuses ≡ none)
      → IsValid (record store { goals = insert id g store.goals })
  put_goal-IsValid id g own owner = record {
    focus_keys = v.focus_keys;
    goal_keys = insert-Distinct id g store.goals v.goal_keys;
    focus_ids = v.focus_ids;
    goal_ids = λ k h e. ground (arith, lookup-insert k id g store.goals, v.goal_ids k h);
    forest = v.forest;
    owners = λ k h e gone. ground (arith, lookup-insert k id g store.goals, v.owners k h);
  }

  -- `delete(store.goals, id)`
  pub erase_goal-IsValid : (id : Uuid) → IsValid (record store { goals = erase id store.goals })
  erase_goal-IsValid id = record {
    focus_keys = v.focus_keys;
    goal_keys = erase-Distinct id store.goals v.goal_keys;
    focus_ids = v.focus_ids;
    goal_ids = λ k h e. ground (arith, lookup-erase k id store.goals, v.goal_ids k h);
    forest = v.forest;
    owners = λ k h e gone. ground (arith, lookup-erase k id store.goals, v.owners k h);
  }
