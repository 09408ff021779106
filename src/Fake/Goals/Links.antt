-- ===== src/Fake/Goals/Links.antt =====
-- LinkGoalFocus and UnlinkGoalFocus: what they make of the links of a goal.
use focus_flow.Common.{
  ◌≡◌, refl, sym, ◌∙◌, ap, inl, inr, ◌⊎◌, true, false, not, Option, none, some, List, [], ◌∷◌, ◌++◌,
  arith, lookup, lookup-insert, ◌==◌, keep_if, Option-cases, Bool-cases,
}
use focus_flow.Model.{Uuid, Goal, GoalFocusLink}
use focus_flow.Fake.State.{Store, Env}
use focus_flow.Fake.Goals.{is_linked, link_goal_focus, unlink_goal_focus, save_goal}

abbrev links_in : Option Goal → List Uuid
links_in none = []
links_in (some g) = g.linked_focus_ids

-- The links of a goal in the store.
abbrev pub links : Store → Uuid → List Uuid
links store goal = links_in (lookup goal store.goals)

is_linked_last : (id : Uuid) (xs : List Uuid) → is_linked id (xs ++ id ∷ []) ≡ true
unfolding is_linked
is_linked_last id [] = ground arith
is_linked_last id (x ∷ xs) = ground (arith, is_linked_last id xs)

keep_last :
    (id : Uuid) (xs : List Uuid)
    → is_linked id xs ≡ false
    → keep_if (λ x. not (x == id)) (xs ++ id ∷ []) ≡ xs
unfolding is_linked
keep_last id [] h = ground arith
keep_last id (x ∷ xs) h = ground (arith, keep_last id xs)

save_goal-links :
    (id : Uuid) (g : Goal) (store : Store) → links (save_goal id g store).1 id ≡ g.linked_focus_ids
unfolding save_goal
save_goal-links id g store = ground (arith, lookup-insert id id g store.goals)

save_goal-focuses :
    (id : Uuid) (g : Goal) (store : Store) → (save_goal id g store).1.focuses ≡ store.focuses
unfolding save_goal
save_goal-focuses id g store = refl

save_goal-there :
    (id : Uuid) (g : Goal) (store : Store) → ¬ (lookup id (save_goal id g store).1.goals ≡ none)
unfolding save_goal
save_goal-there id g store gone = ground (arith, lookup-insert id id g store.goals)

-- Both sides of the link are there.
abbrev pub BothThere : Store → GoalFocusLink → Type 0
BothThere store link =
    (¬ (lookup link.goal_id store.goals ≡ none)) × (¬ (lookup link.focus_id store.focuses ≡ none))

module _ (user : Uuid) (link : GoalFocusLink) where
  -- A link of a goal to a focus, both there, is appended to the goal's links unless it is among
  -- them; then the store does not change.
  pub link_goal_focus-links :
      (store : Store) (env : Env)
      → BothThere store link
      → let after = (link_goal_focus user link env store).1 in
        let before = links store link.goal_id in
        ((is_linked link.focus_id before ≡ true) × (after ≡ store))
        ⊎ ((is_linked link.focus_id before ≡ false)
            × (links after link.goal_id ≡ before ++ link.focus_id ∷ [])
            × BothThere after link)
  unfolding link_goal_focus
  link_goal_focus-links store env (goal, focus) =
      elim (Option-cases (lookup link.goal_id store.goals)) [
        | inl missing ↦ absurd (goal missing)
        | inr (g, found) ↦ elim (Option-cases (lookup link.focus_id store.focuses)) [
          | inl missing ↦ absurd (focus missing)
          | inr (f, there) ↦ elim (Bool-cases (is_linked link.focus_id g.linked_focus_ids)) [
            | inl old ↦ inl (ground arith, ground arith)
            | inr new ↦
                let saved : Goal = record g {
                  linked_focus_ids = g.linked_focus_ids ++ link.focus_id ∷ [];
                  updated_at = env.now;
                } in
                let kept = save_goal-links link.goal_id saved store in
                let same = save_goal-focuses link.goal_id saved store in
                let stays = save_goal-there link.goal_id saved store in
                inr (
                  ground arith,
                  ground arith,
                  ((λ gone. stays (ground arith)), λ gone. focus (ground arith)),
                )
          ]
        ]
      ]

  -- To link a goal and a focus that exist a second time changes nothing in the store.
  pub link_goal_focus-link_goal_focus :
      (store : Store) (env later : Env)
      → BothThere store link
      → let after = (link_goal_focus user link env store).1 in
        (link_goal_focus user link later after).1 ≡ after
  link_goal_focus-link_goal_focus store env later there =
      elim (link_goal_focus-links store env there) [
        | inl (old, same) ↦ elim (link_goal_focus-links store later there) [
          | inl (_, again) ↦ ap (λ s. (link_goal_focus user link later s).1) same ∙ again ∙ sym same
          | inr (new, _, _) ↦ absurd (ground arith)
        ]
        | inr (new, added, stays) ↦
            elim (link_goal_focus-links (link_goal_focus user link env store).1 later stays) [
              | inl (_, again) ↦ again
              | inr (missing, _, _) ↦
                  absurd
                    (ground (arith, is_linked_last link.focus_id (links store link.goal_id), added))
            ]
      ]

  unlink_goal_focus-links :
      (store : Store) (env : Env)
      → ¬ (lookup link.goal_id store.goals ≡ none)
      → links (unlink_goal_focus user link env store).1 link.goal_id
        ≡ keep_if (λ x. not (x == link.focus_id)) (links store link.goal_id)
  unfolding unlink_goal_focus
  unlink_goal_focus-links store env goal = elim (Option-cases (lookup link.goal_id store.goals)) [
    | inl missing ↦ absurd (goal missing)
    | inr (g, found) ↦
        let saved : Goal = record g {
          linked_focus_ids = keep_if (λ x. not (x == link.focus_id)) g.linked_focus_ids;
          updated_at = env.now;
        } in
        let kept = save_goal-links link.goal_id saved store in ground arith
  ]

  -- For a goal and a focus that exist and are not linked, to link them and then to unlink them
  -- gives back the links that the goal had.
  pub unlink_goal_focus-link_goal_focus :
      (store : Store) (env later : Env)
      → BothThere store link
      → is_linked link.focus_id (links store link.goal_id) ≡ false
      → let after = (link_goal_focus user link env store).1 in
        links (unlink_goal_focus user link later after).1 link.goal_id ≡ links store link.goal_id
  unlink_goal_focus-link_goal_focus store env later there new =
      elim (link_goal_focus-links store env there) [
        | inl (old, _) ↦ absurd (ground arith)
        | inr (_, added, stays) ↦
            unlink_goal_focus-links (link_goal_focus user link env store).1 later stays.0
            ∙ ap (keep_if (λ x. not (x == link.focus_id))) added
            ∙ keep_last link.focus_id (links store link.goal_id) new
      ]
