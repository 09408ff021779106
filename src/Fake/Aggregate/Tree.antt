-- ===== src/Fake/Aggregate/Tree.antt =====
-- The tree that a focus is returned with.
use focus_flow.Common.{
  collect_if, Any-collect_if, collect_if-Any, ℕ, zero, suc, ◌≤◌, ◌≡◌, refl, sym, ◌∙◌, subst, ◌⊎◌,
  ◌↔◌, inl, inr, String, Bool, true, false, Option, none, some, List, [], ◌∷◌, arith, Map, lookup,
  Any, Any-sort, Option-cases,
}
use focus_flow.Forest.{Parents}
use focus_flow.Model.{Uuid, FocusFields, Focus, node, Foci, nil, cons, to_foci}
use focus_flow.Fake.State.{Store}
use focus_flow.Fake.Aggregate.{has_parent, collect_children, focus_fields, focus_aggregate}
use focus_flow.Fake.Valid.{parents, IsValid}

-- `y` lies `n` levels below `a`.
abbrev pub LevelsBelow : Parents → Uuid → ℕ → Uuid → Type 0
LevelsBelow up a zero y = a ≡ y
LevelsBelow up a (suc n) y = (c : Uuid) × (up c ≡ some (some a)) × LevelsBelow up c n y

-- `y` stands at level `n` of a tree.
mutual
  pub OccursAt : Focus → ℕ → Uuid → Type 0
  OccursAt (node f below) n y = elim n [ zero ↦ f.id ≡ y | suc m ↦ OccursAmong below m y ]

  pub OccursAmong : Foci → ℕ → Uuid → Type 0
  OccursAmong nil n y = ⊥
  OccursAmong (cons f rest) n y = OccursAt f n y ⊎ OccursAmong rest n y

Among-to_foci :
    (ts : List Focus) (n : ℕ) (y : Uuid)
    → OccursAmong (to_foci ts) n y ↔ Any (λ t. OccursAt t n y) ts
unfolding OccursAmong
Among-to_foci ts n y = (to ts, from ts)
  where
    to : (us : List Focus) → OccursAmong (to_foci us) n y → Any (λ t. OccursAt t n y) us
    to [] h = h
    to (u ∷ us) (inl here) = inl here
    to (u ∷ us) (inr later) = inr (to us later)

    from : (us : List Focus) → Any (λ t. OccursAt t n y) us → OccursAmong (to_foci us) n y
    from [] h = h
    from (u ∷ us) (inl here) = inl here
    from (u ∷ us) (inr later) = inr (from us later)

pub has_parent_iff : (id : Uuid) (o : Option Uuid) → (has_parent id o ≡ true) ↔ (o ≡ some id)
has_parent_iff id none = (λ h. cc, λ h. cc)
has_parent_iff id (some p) = (λ h. ground arith, λ h. ground arith)

-- The loop of childrenLocked collects what passes its test.
pub collect_children-eq :
    (aggregate : Uuid → Focus) (id : Uuid) (m : Map FocusFields)
    → collect_children aggregate id m
      ≡ collect_if (λ f. has_parent id f.parent_id) (λ f. aggregate f.id) m
unfolding collect_children collect_if
collect_children-eq aggregate id [] = refl
collect_children-eq aggregate id ((k, f) ∷ m) = ground (arith, collect_children-eq aggregate id m)

module _ (id_string : Uuid → String) (store : Store) (v : IsValid store) where
  pub root_is :
      (goals : Bool) (id : Uuid) (f : FocusFields)
      → lookup id store.focuses ≡ some f
      → (focus_fields id_string store goals id).id ≡ id
  unfolding focus_fields
  root_is true id f found = rw found (v.focus_ids id f found)
  root_is false id f found = rw found (v.focus_ids id f found)

  -- The focuses below the root, from the levels below its children.
  to_levels :
      (goals : Bool) (depth n : ℕ) (id y : Uuid)
      → ((c : Uuid) (g : FocusFields)
          → lookup c store.focuses ≡ some g
          → OccursAt (focus_aggregate id_string store goals depth c) n y
          → (n ≤ depth) × LevelsBelow (parents store.focuses) c n y)
      → Any
          (λ t. OccursAt t n y)
          (collect_children (focus_aggregate id_string store goals depth) id store.focuses)
      → (suc n ≤ suc depth) × LevelsBelow (parents store.focuses) id (suc n) y
  to_levels goals depth n id y ih h =
      let aggregate = focus_aggregate id_string store goals depth in
      let (k, f, found, test, p) =
        Any-collect_if (λ f. has_parent id f.parent_id) (λ f. aggregate f.id) (λ t. OccursAt t n y)
          store.focuses v.focus_keys (rw (collect_children-eq aggregate id store.focuses) at h) in
      let q =
        subst (λ z. OccursAt (focus_aggregate id_string store goals depth z) n y)
          (v.focus_ids k f found) p in
      let (le, levels) = ih k f found q in
      (omega arith, (k, ground (arith, has_parent_iff id f.parent_id), levels))

  aggregate_sound :
      (goals : Bool) (depth n : ℕ) (id y : Uuid) (f : FocusFields)
      → lookup id store.focuses ≡ some f
      → OccursAt (focus_aggregate id_string store goals depth id) n y
      → (n ≤ depth) × LevelsBelow (parents store.focuses) id n y
  unfolding focus_aggregate OccursAt
  aggregate_sound goals zero zero id y f found h = (omega arith, sym (root_is goals id f found) ∙ h)
  aggregate_sound goals zero (suc n) id y f found h = absurd h
  aggregate_sound goals (suc depth) zero id y f found h =
      (omega arith, sym (root_is goals id f found) ∙ h)
  aggregate_sound goals (suc depth) (suc n) id y f found h =
      to_levels goals depth n id y (λ c g there o. aggregate_sound goals depth n c y g there o)
        ((Any-sort _ _ _).0 ((Among-to_foci _ n y).0 h))

  from_levels :
      (goals : Bool) (depth n : ℕ) (id y : Uuid)
      → ((c : Uuid) (g : FocusFields)
          → lookup c store.focuses ≡ some g
          → LevelsBelow (parents store.focuses) c n y
          → OccursAt (focus_aggregate id_string store goals depth c) n y)
      → LevelsBelow (parents store.focuses) id (suc n) y
      → Any
          (λ t. OccursAt t n y)
          (collect_children (focus_aggregate id_string store goals depth) id store.focuses)
  from_levels goals depth n id y ih (c, h, levels) = elim (Option-cases (lookup c store.focuses)) [
    | inl missing ↦ ground arith
    | inr (g, there) ↦
        let aggregate = focus_aggregate id_string store goals depth in
        rw (collect_children-eq aggregate id store.focuses) (
          collect_if-Any (λ f. has_parent id f.parent_id) (λ f. aggregate f.id)
            (λ t. OccursAt t n y) store.focuses c g there
            ((has_parent_iff id g.parent_id).1 (ground arith))
            (subst (λ z. OccursAt (aggregate z) n y) (sym (v.focus_ids c g there))
              (ih c g there levels)))
  ]

  aggregate_complete :
      (goals : Bool) (depth n : ℕ) (id y : Uuid) (f : FocusFields)
      → lookup id store.focuses ≡ some f
      → n ≤ depth
      → LevelsBelow (parents store.focuses) id n y
      → OccursAt (focus_aggregate id_string store goals depth id) n y
  unfolding focus_aggregate OccursAt
  aggregate_complete goals zero zero id y f found le h = root_is goals id f found ∙ h
  aggregate_complete goals zero (suc n) id y f found le h = absurd (omega arith)
  aggregate_complete goals (suc depth) zero id y f found le h = root_is goals id f found ∙ h
  aggregate_complete goals (suc depth) (suc n) id y f found le h = (Among-to_foci _ n y).1 (
      (Any-sort _ _ _).1 (
        from_levels goals depth n id y
          (λ c g there l. aggregate_complete goals depth n c y g there (omega arith) l) h))

  -- In the tree that a focus of a well-formed store is returned with, a focus stands at a level
  -- exactly if it lies that many levels below it in the hierarchy and the level is at most the
  -- depth asked for.
  pub focus_aggregate-levels :
      (goals : Bool) (depth n : ℕ) (id y : Uuid)
      → ¬ (lookup id store.focuses ≡ none)
      → OccursAt (focus_aggregate id_string store goals depth id) n y
        ↔ ((n ≤ depth) × LevelsBelow (parents store.focuses) id n y)
  focus_aggregate-levels goals depth n id y there = elim (Option-cases (lookup id store.focuses)) [
    | inl missing ↦ absurd (there missing)
    | inr (f, found) ↦ (
      aggregate_sound goals depth n id y f found,
      λ (le, levels). aggregate_complete goals depth n id y f found le levels,
    )
  ]
