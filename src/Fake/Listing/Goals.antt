-- ===== src/Fake/Listing/Goals.antt =====
-- ListFocusGoals, page by page.
use focus_flow.Common.{
  ℕ, ◌<◌, ◌≡◌, refl, sym, ◌∙◌, ap, ◌↔◌, inl, inr, String, Option, none, some, [], ◌∷◌, arith, Map,
  lookup, length, Any, Rising, collect_if, Source, Option-cases, ◌==◌,
}
use focus_flow.Storage.{ok}
use focus_flow.Model.{Uuid, Goal, PageRequest}
use focus_flow.Model.Int.{ℤ}
use focus_flow.Fake.State.{Store, Env}
use focus_flow.Fake.Aggregate.{goal_aggregate, owned_goals, goal_page, sort_goals}
use focus_flow.Fake.Goals.{list_focus_goals}
use focus_flow.Fake.Listing.{UuidText, follow_pages, listing}
use focus_flow.Fake.Valid.{IsValid}

abbrev pub goal_key : Goal → Uuid
goal_key g = g.id

-- Who owns a goal.
abbrev owner_of : Option Goal → Option Uuid
owner_of none = none
owner_of (some g) = some g.owner_focus_id

abbrev pub owner : Store → Uuid → Option Uuid
owner store y = owner_of (lookup y store.goals)

owned_goals-eq :
    (store : Store) (focus : Uuid) (m : Map Goal)
    → owned_goals store focus m
      ≡ collect_if (λ g. g.owner_focus_id == focus) (λ g. goal_aggregate store g.id) m
unfolding owned_goals collect_if
owned_goals-eq store focus [] = refl
owned_goals-eq store focus ((k, g) ∷ m) = ground (arith, owned_goals-eq store focus m)

module _ (id_string : Uuid → String) (store : Store) (v : IsValid store) where
  aggregate_keys :
      (k : Uuid) (g : Goal)
      → lookup k store.goals ≡ some g
      → goal_key (goal_aggregate store g.id) ≡ k
  unfolding goal_aggregate
  aggregate_keys k g found = rw (v.goal_ids k g found, found) (v.goal_ids k g found)

  goal_sources :
      (focus y : Uuid)
      → Source
          (λ g. g.owner_focus_id == focus)
          (λ g. goal_aggregate store g.id)
          (λ g. goal_key g ≡ y)
          store.goals
        ↔ (owner store y ≡ some focus)
  goal_sources focus y = (
    (λ (k, g, found, test, same).
        let at : k ≡ y = sym (aggregate_keys k g found) ∙ same in
        rw (sym at, found) (ground arith)),
    (λ h. elim (Option-cases (lookup y store.goals)) [
      | inl missing ↦ absurd (ground arith)
      | inr (g, found) ↦ (y, g, found, ground arith, aggregate_keys y g found)
    ]),
  )

  goals_answer :
      (user focus : Uuid) (page : PageRequest) (env : Env)
      → ¬ (lookup focus store.focuses ≡ none)
      → (list_focus_goals id_string user focus page env store).0
        ≡ ok (goal_page id_string (owned_goals store focus store.goals) page)
  unfolding list_focus_goals
  goals_answer user focus page env there = ground arith

  -- A client that follows the cursors of ListFocusGoals for a focus of a well-formed store, with
  -- one call more than there are goals, sees the goals that the focus owns, each once, in rising
  -- order of their identifiers, whatever the limit, if the text of identifiers keeps their order.
  pub list_focus_goals-lists :
      UuidText id_string
      → (user focus : Uuid) → ¬ (lookup focus store.focuses ≡ none)
      → (env : Env) (limit : ℤ) (calls : ℕ) → length store.goals < calls
      → let listed =
          follow_pages
            (λ at.
              (list_focus_goals id_string user focus
                (record { limit = limit; cursor = at })
                env
                store).0)
            calls
            none in
        Rising goal_key listed
        × ((y : Uuid) → Any (λ g. goal_key g ≡ y) listed ↔ (owner store y ≡ some focus))
  unfolding goal_page sort_goals
  list_focus_goals-lists text user focus there env limit calls enough =
      let (rising, exactly) =
        listing id_string text goal_key (λ g. g.owner_focus_id == focus)
          (λ g. goal_aggregate store g.id) store.goals v.goal_keys aggregate_keys _ limit
          (λ at.
            goals_answer user focus (record { limit = limit; cursor = at }) env there
            ∙ ap (λ items. ok (goal_page id_string items (record { limit = limit; cursor = at })))
                (owned_goals-eq store focus store.goals))
          calls enough in
      (
        rising,
        λ y.
            let sources = goal_sources focus y in
            let shown = exactly y in ((λ a. sources.0 (shown.0 a)), (λ h. shown.1 (sources.1 h))),
      )
