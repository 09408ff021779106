-- ===== src/Fake/Listing/Flows.antt =====
-- ListFlows and ListFocusChildren, page by page.
use focus_flow.Common.{
  ℕ, zero, suc, ◌<◌, ◌≡◌, refl, sym, ◌∙◌, ap, ◌↔◌, inl, inr, String, Bool, true, not, Option, none,
  some, [], ◌∷◌, arith, Map, lookup, length, Any, Rising, collect_if, collect_if-DistinctKeys,
  Source, is_some, Option-cases,
}
use focus_flow.Storage.{Outcome, ok}
use focus_flow.Model.{Uuid, FocusFields, Focus, fields, FocusQuery, Page, PageRequest}
use focus_flow.Model.Int.{ℤ, rounds}
use focus_flow.Fake.State.{Store, Env}
use focus_flow.Fake.Aggregate.{
  has_parent, focus_aggregate, children_locked, focus_page, sort_focuses, to_page,
}
use focus_flow.Fake.Aggregate.Tree.{collect_children-eq, has_parent_iff, root_is}
use focus_flow.Fake.Focuses.{collect_roots, list_flows, list_focus_children}
use focus_flow.Fake.Listing.{UuidText, follow_pages, listing, sort_again}
use focus_flow.Fake.Paging.{page_items}
use focus_flow.Fake.Valid.{parents, IsValid}

abbrev pub focus_id : Focus → Uuid
focus_id t = (fields t).id

collect_roots-eq :
    (aggregate : Uuid → Focus) (m : Map FocusFields)
    → collect_roots aggregate m
      ≡ collect_if (λ f. not (is_some f.parent_id)) (λ f. aggregate f.id) m
unfolding collect_roots collect_if
collect_roots-eq aggregate [] = refl
collect_roots-eq aggregate ((k, f) ∷ m) = ground (arith, collect_roots-eq aggregate m)

some_injective : {a b : Option Uuid} → some a ≡ some b → a ≡ b
some_injective e = cc

not_some_iff : (o : Option Uuid) → (not (is_some o) ≡ true) ↔ (o ≡ none)
not_some_iff none = (λ h. refl, λ h. refl)
not_some_iff (some p) = (λ h. cc, λ h. cc)

module _ (id_string : Uuid → String) (store : Store) (v : IsValid store) where
  aggregate_is :
      (goals : Bool) (depth : ℕ) (id : Uuid) (f : FocusFields)
      → lookup id store.focuses ≡ some f
      → focus_id (focus_aggregate id_string store goals depth id) ≡ id
  unfolding focus_aggregate
  aggregate_is goals zero id f found = root_is id_string store v goals id f found
  aggregate_is goals (suc depth) id f found = root_is id_string store v goals id f found

  aggregate_keys :
      (goals : Bool) (depth : ℕ) (k : Uuid) (f : FocusFields)
      → lookup k store.focuses ≡ some f
      → focus_id (focus_aggregate id_string store goals depth f.id) ≡ k
  aggregate_keys goals depth k f found =
      aggregate_is goals depth f.id f
        (ap (λ x. lookup x store.focuses) (v.focus_ids k f found) ∙ found)
      ∙ v.focus_ids k f found

  -- The trees that a loop over the focuses collects, by the parent that its test asks for.
  tree_sources :
      (goals : Bool) (depth : ℕ) (p : FocusFields → Bool) (o : Option Uuid)
      → ((f : FocusFields) → (p f ≡ true) ↔ (f.parent_id ≡ o))
      → (y : Uuid)
      → Source p
          (λ f. focus_aggregate id_string store goals depth f.id)
          (λ t. focus_id t ≡ y)
          store.focuses
        ↔ (parents store.focuses y ≡ some o)
  tree_sources goals depth p o tests y = (
    (λ (k, f, found, test, same).
        let at : k ≡ y = sym (aggregate_keys goals depth k f found) ∙ same in
        let parent = (tests f).0 test in rw (sym at, found) (ap some parent)),
    (λ h. elim (Option-cases (lookup y store.focuses)) [
      | inl missing ↦ absurd (ground arith)
      | inr (f, found) ↦ (
        y,
        f,
        found,
        (tests f).1 (some_injective (rw found at h)),
        aggregate_keys goals depth y f found,
      )
    ]),
  )

  -- The listing of the trees that a loop over the focuses collects.
  trees :
      UuidText id_string
      → (goals : Bool) (depth : ℕ) (p : FocusFields → Bool) (o : Option Uuid)
      → ((f : FocusFields) → (p f ≡ true) ↔ (f.parent_id ≡ o))
      → (call : Option String → Outcome (Page Focus)) (limit : ℤ)
      → ((at : Option String)
          → call at
            ≡ ok (
                focus_page id_string
                  (collect_if p
                    (λ f. focus_aggregate id_string store goals depth f.id)
                    store.focuses)
                  (record { limit = limit; cursor = at })))
      → (calls : ℕ) → length store.focuses < calls
      → let listed = follow_pages call calls none in
        Rising focus_id listed
        × ((y : Uuid) → Any (λ t. focus_id t ≡ y) listed ↔ (parents store.focuses y ≡ some o))
  unfolding focus_page sort_focuses
  trees text goals depth p o tests call limit answers calls enough =
      let (rising, exactly) =
        listing id_string text focus_id p (λ f. focus_aggregate id_string store goals depth f.id)
          store.focuses v.focus_keys (aggregate_keys goals depth) call limit answers calls enough in
      (
        rising,
        λ y.
            let sources = tree_sources goals depth p o tests y in
            let shown = exactly y in ((λ a. sources.0 (shown.0 a)), (λ h. shown.1 (sources.1 h))),
      )

  -- A client that follows the cursors of ListFlows on a well-formed store, with one call more
  -- than there are focuses, sees the focuses without a parent, each once, in rising order of
  -- their identifiers, whatever the limit and the query, if the text of identifiers keeps their
  -- order.
  pub list_flows-lists :
      UuidText id_string
      → (user : Uuid) (env : Env) (query : FocusQuery) (limit : ℤ) (calls : ℕ)
      → length store.focuses < calls
      → let listed =
          follow_pages
            (λ at.
              (list_flows id_string user (record { limit = limit; cursor = at }) query env store).0)
            calls
            none in
        Rising focus_id listed
        × ((y : Uuid) → Any (λ t. focus_id t ≡ y) listed ↔ (parents store.focuses y ≡ some none))
  unfolding list_flows
  list_flows-lists text user env query limit calls enough =
      trees text query.include_goals (rounds query.descendant_depth)
        (λ f. not (is_some f.parent_id)) none (λ f. not_some_iff f.parent_id) _ limit
        (λ at.
          ap (λ items. ok (focus_page id_string items (record { limit = limit; cursor = at })))
            (collect_roots-eq
              (focus_aggregate id_string store query.include_goals (rounds query.descendant_depth))
              store.focuses))
        calls enough

  children_answer :
      (user parent : Uuid) (page : PageRequest) (query : FocusQuery) (env : Env)
      → ¬ (lookup parent store.focuses ≡ none)
      → (list_focus_children id_string user parent page query env store).0
        ≡ ok (
            focus_page id_string
              (children_locked id_string store query.include_goals
                (rounds query.descendant_depth)
                parent)
              page)
  unfolding list_focus_children
  children_answer user parent page query env there = ground arith

  -- A client that follows the cursors of ListFocusChildren for a focus of a well-formed store,
  -- with one call more than there are focuses, sees the focuses whose parent it is, each once, in
  -- rising order of their identifiers, whatever the limit and the query, if the text of
  -- identifiers keeps their order.
  pub list_focus_children-lists :
      UuidText id_string
      → (user parent : Uuid) → ¬ (lookup parent store.focuses ≡ none)
      → (env : Env) (query : FocusQuery) (limit : ℤ) (calls : ℕ) → length store.focuses < calls
      → let listed =
          follow_pages
            (λ at.
              (list_focus_children id_string user parent
                (record { limit = limit; cursor = at })
                query
                env
                store).0)
            calls
            none in
        Rising focus_id listed
        × ((y : Uuid)
            → Any (λ t. focus_id t ≡ y) listed ↔ (parents store.focuses y ≡ some (some parent)))
  unfolding children_locked focus_page sort_focuses
  list_focus_children-lists text user parent there env query limit calls enough =
      let aggregate =
        focus_aggregate id_string store query.include_goals (rounds query.descendant_depth) in
      trees text query.include_goals (rounds query.descendant_depth)
        (λ f. has_parent parent f.parent_id) (some parent) (λ f. has_parent_iff parent f.parent_id)
        _ limit
        (λ at.
          children_answer user parent (record { limit = limit; cursor = at }) query env there
          ∙ rw (collect_children-eq aggregate parent store.focuses) (
              ap
                (λ items. ok (
                  to_page (
                    page_items items (record { limit = limit; cursor = at })
                      (λ x. id_string (focus_id x)))))
                (sort_again id_string text focus_id _ (
                  collect_if-DistinctKeys (λ f. has_parent parent f.parent_id) (λ f. aggregate f.id)
                    focus_id store.focuses v.focus_keys
                    (aggregate_keys query.include_goals (rounds query.descendant_depth))))))
        calls enough
