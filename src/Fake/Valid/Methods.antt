-- ===== src/Fake/Valid/Methods.antt =====
-- The methods and the well-formedness of the store.
use focus_flow.Common.{
  ℕ, ◌≡◌, refl, sym, ◌∙◌, subst, inl, inr, false, Option, none, some, List, arith, lookup, insert,
  Option-cases, Bool-cases, Marks,
}
use focus_flow.Storage.{Outcome, ok, err, overflow}
use focus_flow.Forest.{Rooted, Below}
use focus_flow.Forest.Order.{not-Below-child, Below-head, Rooted-up, Rooted-parent}
use focus_flow.Forest.Change.{prune-IsForest}
use focus_flow.Model.{
  Uuid, FocusFields, Goal, CreateFocus, UpdateFocus, CreateGoal, UpdateGoal, GoalFocusLink,
}
use focus_flow.Fake.State.{Store, Env}
use focus_flow.Fake.Hierarchy.{ensure_can_move}
use focus_flow.Fake.Hierarchy.Descent.{ensure_can_move-verdict}
use focus_flow.Fake.Hierarchy.Removal.{
  remove_all, lookup-remove_all, goals-remove_all, remove_all-focuses-Distinct,
  remove_all-goals-Distinct, surviving_goal-inv,
}
use focus_flow.Fake.Hierarchy.Subtree.{hier, Marks-Prunes}
use focus_flow.Fake.Hierarchy.Delete.{delete_focus_locked-Removes}
use focus_flow.Fake.Focuses.{
  lacks_parent, create_focus, check_move, update_focus, saved_update, nullable, delete_focus,
}
use focus_flow.Fake.Goals.{
  is_linked, create_goal, update_goal, delete_goal, link_goal_focus, unlink_goal_focus,
}
use focus_flow.Fake.Valid.{IsValid}
use focus_flow.Fake.Valid.Put.{CanHold, put_focus-IsValid, put_goal-IsValid, erase_goal-IsValid}

module _ (store : Store) (v : IsValid store) where
  -- A parent that is there is not below an object that is not.
  CanHold-fresh :
      (id : Uuid) (q : Option Uuid)
      → lookup id store.focuses ≡ none
      → lacks_parent store q ≡ false
      → CanHold store id q
  CanHold-fresh id q fresh has p e = elim (Option-cases (lookup p store.focuses)) [
    | inl missing ↦ ground arith
    | inr (f, found) ↦
        let (d, r) = v.forest p f.parent_id (ground arith) in
        (d, r, λ b. let (c, s, le) = Below-head b r in let (t, h) = Rooted-up s in ground arith)
  ]

  pub create_focus-IsValid :
      (user : Uuid) (input : CreateFocus) (env : Env)
      → lookup env.new_id store.focuses ≡ none
      → IsValid (create_focus user input env store).1
  unfolding create_focus
  create_focus-IsValid user input env fresh =
      elim (Bool-cases (lacks_parent store input.parent_id)) [
        | inl lacks ↦ rw lacks v
        | inr has ↦ rw has (
            put_focus-IsValid store v env.new_id _ refl
              (CanHold-fresh env.new_id input.parent_id fresh has))
      ]

  -- The parent that a focus has can hold it.
  CanHold-same :
      (id : Uuid) (f : FocusFields)
      → lookup id store.focuses ≡ some f
      → CanHold store id f.parent_id
  CanHold-same id f found p e =
      let (d, r) = v.forest id f.parent_id (ground arith) in
      let (c, eq, s) = Rooted-parent {p = p} r (ground arith) in
      (c, s, not-Below-child s (ground arith))

  -- So can a parent that the check allows.
  CanHold-checked :
      (id parent : Uuid) (u : Unit {0})
      → ensure_can_move store id parent ≡ ok u
      → CanHold store id (some parent)
  CanHold-checked id parent u allowed p e =
      elim (ensure_can_move-verdict store v.forest id parent) [
        | inl (b, refused) ↦ cc
        | inr (inl (out, missing, refused)) ↦ cc
        | inr (inr (out, there, passed)) ↦ elim (Option-cases (lookup parent store.focuses)) [
          | inl missing ↦ absurd (there missing)
          | inr (f, found) ↦
              let (d, r) = v.forest parent f.parent_id (ground arith) in
              subst (λ z. (d : ℕ) × Rooted (hier store) d z × (¬ Below (hier store) id z))
                (ground arith) (d, r, out)
        ]
      ]

  CanHold-updated :
      (input : UpdateFocus) (f : FocusFields) (u : Unit {0})
      → lookup input.id store.focuses ≡ some f
      → check_move store input ≡ ok u
      → CanHold store input.id (nullable input.parent_id f.parent_id)
  unfolding check_move
  CanHold-updated input f u found allowed = elim (Bool-cases input.parent_id.set) [
    | inr unset ↦ rw unset (CanHold-same input.id f found)
    | inl set ↦ elim (Option-cases input.parent_id.value) [
      | inl root ↦ rw (set, root) (λ p e. cc)
      | inr (parent, given) ↦ rw (set, given) (CanHold-checked input.id parent u (ground arith))
    ]
  ]

  pub update_focus-IsValid :
      (user : Uuid) (input : UpdateFocus) (env : Env)
      → IsValid (update_focus user input env store).1
  unfolding update_focus
  update_focus-IsValid user input env = elim (Option-cases (lookup input.id store.focuses)) [
    | inl missing ↦ rw (missing, update_focus) v
    | inr (f, found) ↦ rw (found, update_focus) (checked f found (check_move store input) refl)
  ]
    where
      checked :
          (f : FocusFields)
          → lookup input.id store.focuses ≡ some f
          → (r : Outcome (Unit {0})) → check_move store input ≡ r
          → IsValid (saved_update input env f store r).1
      checked f found (err e) h = v
      checked f found overflow h = v
      checked f found (ok u) h =
          put_focus-IsValid store v input.id _ (v.focus_ids input.id f found)
            (CanHold-updated input f u found h)

  -- The store without a subtree.
  remove_all-IsValid :
      (id : Uuid) (ds : List Uuid)
      → Marks (Below (hier store) id) ds
      → IsValid (remove_all ds store)
  remove_all-IsValid id ds marks = record {
    focus_keys = remove_all-focuses-Distinct ds store v.focus_keys;
    goal_keys = remove_all-goals-Distinct ds store v.goal_keys;
    focus_ids = λ k f e. v.focus_ids k f (ground (arith, lookup-remove_all k ds store));
    goal_ids = λ k h e.
        let (g, there, same, kept) =
          surviving_goal-inv ds (lookup k store.goals) h
            (sym (goals-remove_all k ds store v.goal_keys) ∙ e) in
        ground (arith, v.goal_ids k g there);
    forest = prune-IsForest v.forest id (Marks-Prunes id ds store marks);
    owners = λ k h e gone.
        let (g, there, same, kept) =
          surviving_goal-inv ds (lookup k store.goals) h
            (sym (goals-remove_all k ds store v.goal_keys) ∙ e) in
        v.owners k g there (ground (arith, lookup-remove_all g.owner_focus_id ds store));
  }

  pub delete_focus-IsValid :
      (user id : Uuid) (env : Env) → IsValid (delete_focus user id env store).1
  unfolding delete_focus
  delete_focus-IsValid user id env = elim (Option-cases (lookup id store.focuses)) [
    | inl missing ↦ rw (missing, delete_focus) v
    | inr (f, found) ↦
        let (ds, e, marks) = delete_focus_locked-Removes store id v (λ gone. cc) in
        rw (found, e, delete_focus) (remove_all-IsValid id ds marks)
  ]

  pub create_goal-IsValid :
      (user : Uuid) (input : CreateGoal) (env : Env) → IsValid (create_goal user input env store).1
  unfolding create_goal
  create_goal-IsValid user input env =
      elim (Option-cases (lookup input.owner_focus_id store.focuses)) [
        | inl missing ↦ rw missing v
        | inr (f, found) ↦ rw found (put_goal-IsValid store v env.new_id _ refl (λ gone. cc))
      ]

  -- A goal is written back with its identifier and its owner.
  rewrite_goal-IsValid :
      (k : Uuid) (g h : Goal)
      → lookup k store.goals ≡ some g
      → h.id ≡ g.id
      → h.owner_focus_id ≡ g.owner_focus_id
      → IsValid (record store { goals = insert k h store.goals })
  rewrite_goal-IsValid k g h found own owner =
      put_goal-IsValid store v k h (own ∙ v.goal_ids k g found)
        (λ gone. v.owners k g found (ground arith))

  pub update_goal-IsValid :
      (user : Uuid) (input : UpdateGoal) (env : Env) → IsValid (update_goal user input env store).1
  unfolding update_goal
  update_goal-IsValid user input env = elim (Option-cases (lookup input.id store.goals)) [
    | inl missing ↦ rw (missing, update_goal) v
    | inr (g, found) ↦ rw (found, update_goal) (rewrite_goal-IsValid input.id g _ found refl refl)
  ]

  pub delete_goal-IsValid : (user id : Uuid) (env : Env) → IsValid (delete_goal user id env store).1
  unfolding delete_goal
  delete_goal-IsValid user id env = elim (Option-cases (lookup id store.goals)) [
    | inl missing ↦ rw missing v
    | inr (g, found) ↦ rw found (erase_goal-IsValid store v id)
  ]

  pub link_goal_focus-IsValid :
      (user : Uuid) (link : GoalFocusLink) (env : Env)
      → IsValid (link_goal_focus user link env store).1
  unfolding link_goal_focus
  link_goal_focus-IsValid user link env = elim (Option-cases (lookup link.goal_id store.goals)) [
    | inl missing ↦ rw (missing, link_goal_focus) v
    | inr (g, found) ↦ elim (Option-cases (lookup link.focus_id store.focuses)) [
      | inl missing ↦ rw (found, missing, link_goal_focus) v
      | inr (f, there) ↦ elim (Bool-cases (is_linked link.focus_id g.linked_focus_ids)) [
        | inl old ↦ rw (found, there, link_goal_focus) (rw old v)
        | inr new ↦
            rw (found, there, link_goal_focus)
              (rw new (rewrite_goal-IsValid link.goal_id g _ found refl refl))
      ]
    ]
  ]

  pub unlink_goal_focus-IsValid :
      (user : Uuid) (link : GoalFocusLink) (env : Env)
      → IsValid (unlink_goal_focus user link env store).1
  unfolding unlink_goal_focus
  unlink_goal_focus-IsValid user link env = elim (Option-cases (lookup link.goal_id store.goals)) [
    | inl missing ↦ rw (missing, unlink_goal_focus) v
    | inr (g, found) ↦
        rw (found, unlink_goal_focus) (rewrite_goal-IsValid link.goal_id g _ found refl refl)
  ]
