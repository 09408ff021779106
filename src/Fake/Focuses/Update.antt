-- ===== src/Fake/Focuses/Update.antt =====
-- What UpdateFocus does, on every branch.
use focus_flow.Common.{
  subst, ◌≡◌, ◌∙◌, ◌⊎◌, inl, inr, true, none, some, arith, lookup, lookup-insert, Option-cases,
  Bool-cases, ◌==◌, if◌then◌else◌,
}
use focus_flow.Storage.{Outcome, ok, err, not_found, invalid_hierarchy}
use focus_flow.Forest.{Below}
use focus_flow.Model.{Uuid, FocusFields, Focus, node, nil, UpdateFocus}
use focus_flow.Fake.State.{Store, Env}
use focus_flow.Fake.Hierarchy.{ensure_can_move}
use focus_flow.Fake.Hierarchy.Descent.{ensure_can_move-verdict}
use focus_flow.Fake.Focuses.{check_move, updated_focus, saved_update, update_focus}
use focus_flow.Fake.Valid.{parents, IsValid}

-- The input names a new parent.
abbrev pub Moves : UpdateFocus → Uuid → Type 0
Moves input p = (input.parent_id.set ≡ true) × (input.parent_id.value ≡ some p)

-- A parent that the input names is there, and not in the subtree of the focus.
abbrev pub Allowed : Store → UpdateFocus → Type 0
Allowed store input =
    (p : Uuid)
    → Moves input p
    → (¬ Below (parents store.focuses) input.id p) × (¬ (lookup p store.focuses ≡ none))

-- What the check on the input says.
data Verdict (store : Store) (input : UpdateFocus) (r : Outcome (Unit {0})) : Type 0 where
  cycle :
      (p : Uuid)
      → Moves input p
      → Below (parents store.focuses) input.id p
      → r ≡ err invalid_hierarchy
      → Verdict store input r
  no_parent :
      (p : Uuid)
      → Moves input p
      → ¬ Below (parents store.focuses) input.id p
      → lookup p store.focuses ≡ none
      → r ≡ err not_found
      → Verdict store input r
  allowed : Allowed store input → r ≡ ok tt → Verdict store input r

-- What an update of the focus `old` does: it is refused as a cycle, or for want of the parent, and
-- changes nothing; or the assigned focus is stored and returned, and nothing else changes.
pub data Effect (store : Store) (input : UpdateFocus) (env : Env) (old : FocusFields)
    (r : Outcome Focus × Store) : Type 0 where
  refused_cycle :
      (p : Uuid)
      → Moves input p
      → Below (parents store.focuses) input.id p
      → r ≡ (err invalid_hierarchy, store)
      → Effect store input env old r
  refused_parent :
      (p : Uuid)
      → Moves input p
      → ¬ Below (parents store.focuses) input.id p
      → lookup p store.focuses ≡ none
      → r ≡ (err not_found, store)
      → Effect store input env old r
  saved :
      Allowed store input
      → r.0 ≡ ok (node (updated_focus input env.now old) nil)
      → ((x : Uuid)
          → lookup x r.1.focuses ≡ (
              if x == input.id
              then some (updated_focus input env.now old)
              else lookup x store.focuses))
      → r.1.goals ≡ store.goals
      → Effect store input env old r

module _ (store : Store) (v : IsValid store) where
  check_given :
      (input : UpdateFocus) (p : Uuid)
      → Moves input p
      → check_move store input ≡ ensure_can_move store input.id p
  unfolding check_move
  check_given input p (set, given) = rw (set, given)

  check_given-Verdict :
      (input : UpdateFocus) (p : Uuid)
      → Moves input p
      → Verdict store input (check_move store input)
  check_given-Verdict input p m = elim (ensure_can_move-verdict store v.forest input.id p) [
    | inl (b, e) ↦ cycle p m b (check_given input p m ∙ e)
    | inr (inl (out, missing, e)) ↦ no_parent p m out missing (check_given input p m ∙ e)
    | inr (inr (out, there, e)) ↦ allowed (λ q n. same q n out there) (check_given input p m ∙ e)
  ]
    where
      same :
          (q : Uuid)
          → Moves input q
          → ¬ Below (parents store.focuses) input.id p
          → ¬ (lookup p store.focuses ≡ none)
          → (¬ Below (parents store.focuses) input.id q) × (¬ (lookup q store.focuses ≡ none))
      same q n out there =
          subst
            (λ z.
              (¬ Below (parents store.focuses) input.id z) × (¬ (lookup z store.focuses ≡ none)))
            (ground arith) (out, there)

  check_move-Verdict : (input : UpdateFocus) → Verdict store input (check_move store input)
  unfolding check_move
  check_move-Verdict input = elim (Bool-cases input.parent_id.set) [
    | inr unset ↦ allowed (λ p (set, given). cc) (rw unset)
    | inl set ↦ elim (Option-cases input.parent_id.value) [
      | inl root ↦ allowed (λ p (set', given). cc) (rw (set, root))
      | inr (p, given) ↦ check_given-Verdict input p (set, given)
    ]
  ]

  update_found :
      (user : Uuid) (input : UpdateFocus) (env : Env) (old : FocusFields)
      → lookup input.id store.focuses ≡ some old
      → update_focus user input env store
        ≡ saved_update input env old store (check_move store input)
  unfolding update_focus
  update_found user input env old found = rw (found, update_focus)

  update_found-Effect :
      (user : Uuid) (input : UpdateFocus) (env : Env) (old : FocusFields)
      → lookup input.id store.focuses ≡ some old
      → Effect store input env old (update_focus user input env store)
  update_found-Effect user input env old found =
      rw (update_found user input env old found) (go (check_move-Verdict input))
    where
      go :
          {r : Outcome (Unit {0})}
          → Verdict store input r
          → Effect store input env old (saved_update input env old store r)
      go (cycle p m b e) = refused_cycle p m b (rw e)
      go (no_parent p m out missing e) = refused_parent p m out missing (rw e)
      go (allowed may e) =
          saved may (rw e)
            (λ x. rw e (lookup-insert x input.id (updated_focus input env.now old) store.focuses))
            (rw e)

  -- On a well-formed store UpdateFocus answers not found for a focus that is not there; it
  -- refuses a parent in the subtree of the focus as an invalid hierarchy, and a parent that does
  -- not exist as not found, both without a change; otherwise it stores and returns the focus with
  -- the assignments of the input, and changes nothing else.
  pub update_focus-cases :
      (user : Uuid) (input : UpdateFocus) (env : Env)
      → ((lookup input.id store.focuses ≡ none)
          × (update_focus user input env store ≡ (err not_found, store)))
        ⊎ ((old : FocusFields) × (lookup input.id store.focuses ≡ some old)
            × Effect store input env old (update_focus user input env store))
  unfolding update_focus
  update_focus-cases user input env = elim (Option-cases (lookup input.id store.focuses)) [
    | inl missing ↦ inl (missing, ground arith)
    | inr (old, found) ↦ inr (old, found, update_found-Effect user input env old found)
  ]
