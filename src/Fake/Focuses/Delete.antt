-- ===== src/Fake/Focuses/Delete.antt =====
-- What DeleteFocus does, on every branch.
use focus_flow.Common.{
  ◌≡◌, ◌⊎◌, inl, inr, none, List, arith, lookup, member, Marks, Option-cases, if◌then◌else◌,
}
use focus_flow.Storage.{ok, err, not_found}
use focus_flow.Forest.{Below}
use focus_flow.Model.{Uuid}
use focus_flow.Fake.State.{Store, Env}
use focus_flow.Fake.Hierarchy.Delete.{delete_focus_locked-Removes}
use focus_flow.Fake.Hierarchy.Removal.{lookup-remove_all, goals-remove_all, surviving_goal}
use focus_flow.Fake.Focuses.{delete_focus}
use focus_flow.Fake.Valid.{parents, IsValid}

-- The store without the focuses of a list: the others are as they were; a goal goes with its owner,
-- and loses its links to what is gone.
pub record Without (ds : List Uuid) (store after : Store) : Type 0 where
  pub focuses :
      (x : Uuid) → lookup x after.focuses ≡ (if member x ds then none else lookup x store.focuses)
  pub goals : (k : Uuid) → lookup k after.goals ≡ surviving_goal ds (lookup k store.goals)

module _ (store : Store) (v : IsValid store) where
  -- On a well-formed store DeleteFocus answers not found for a focus that is not there and
  -- changes nothing; otherwise it succeeds, and leaves the store without exactly the focus and
  -- its descendants, without the goals that they own, and the other goals without their links to
  -- them.
  pub delete_focus-cases :
      (user id : Uuid) (env : Env)
      → ((lookup id store.focuses ≡ none)
          × (delete_focus user id env store ≡ (err not_found, store)))
        ⊎ ((ds : List Uuid) × Marks (Below (parents store.focuses) id) ds
            × ((delete_focus user id env store).0 ≡ ok tt)
            × Without ds store (delete_focus user id env store).1)
  unfolding delete_focus
  delete_focus-cases user id env = elim (Option-cases (lookup id store.focuses)) [
    | inl missing ↦ inl (missing, ground arith)
    | inr (f, found) ↦
        let (ds, e, marks) = delete_focus_locked-Removes store id v (λ gone. cc) in
        inr (
          ds,
          marks,
          ground arith,
          rw (found, e, delete_focus)
              (record {
                focuses = λ x. lookup-remove_all x ds store;
                goals = λ k. goals-remove_all k ds store v.goal_keys;
              }),
        )
  ]
