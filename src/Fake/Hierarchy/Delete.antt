-- ===== src/Fake/Hierarchy/Delete.antt =====
-- What deleteFocusLocked removes.
use focus_flow.Common.{
  ℕ, zero, suc, ◌≡◌, refl, inl, inr, true, false, Option, none, some, List, [], ◌∷◌, ◌++◌, arith,
  lookup, keys, length, Option-cases, Bool-cases,
}
use focus_flow.Forest.{Below, self}
use focus_flow.Model.{Uuid}
use focus_flow.Fake.State.{Store}
use focus_flow.Fake.Aggregate.{has_parent}
use focus_flow.Fake.Hierarchy.{delete_children, delete_focus_locked}
use focus_flow.Fake.Hierarchy.Removal.{remove_all, remove_all-append}
use focus_flow.Fake.Hierarchy.Descent.{parents-depth-lt}
use focus_flow.Fake.Hierarchy.Subtree.{
  Removes, hier, UnderChild, Ready, child-Ready, after-Ready, skip_key, join_key, add_self,
}
use focus_flow.Fake.Valid.{IsValid}

has_parent-eq : (id : Uuid) (o : Option Uuid) → has_parent id o ≡ true → o ≡ some id
has_parent-eq id none h = cc
has_parent-eq id (some p) h = ground arith

has_parent-ne : (id : Uuid) (o : Option Uuid) → has_parent id o ≡ false → ¬ (o ≡ some id)
has_parent-ne id none h = λ e. cc
has_parent-ne id (some p) h = λ e. ground arith

-- The loop, given that the recursive call does its part at every child.
module _ (n : ℕ)
    (call : (store : Store) (k d : ℕ)
      → Ready store k d n
      → Removes (Below (hier store) k) store (delete_focus_locked n k store)) where
  -- One round, at an entry that is still there.
  visit_child :
      (k : Uuid) (ks : List Uuid) (store : Store) (id d : ℕ)
      → Ready store id d (suc n)
      → hier store k ≡ some (some id)
      → ((store' : Store)
          → Ready store' id d (suc n)
          → Removes
              (UnderChild (hier store') id ks)
              store'
              (delete_children (delete_focus_locked n) id ks store'))
      → Removes (UnderChild (hier store) id (k ∷ ks)) store (elim (delete_focus_locked n k store) [
        | none ↦ none
        | some store' ↦ delete_children (delete_focus_locked n) id ks store'
      ])
  visit_child k ks store id d r h rest =
      let (ds, e, marks) = call store k (suc d) (child-Ready k r h) in
      let (es, e', marks') = rest (remove_all ds store) (after-Ready k ds r h marks) in
      (
        ds ++ es,
        ground (arith, remove_all-append ds es store),
        join_key store id k ks ds es h marks marks',
      )

  delete_children-Removes :
      (ks : List Uuid) (store : Store) (id d : ℕ)
      → Ready store id d (suc n)
      → Removes
          (UnderChild (hier store) id ks)
          store
          (delete_children (delete_focus_locked n) id ks store)
  unfolding delete_children remove_all
  delete_children-Removes [] store id d r = ([], refl, λ x. inr (λ (c, m, h, b). cc, refl))
  delete_children-Removes (k ∷ ks) store id d r = elim (Option-cases (lookup k store.focuses)) [
    | inl missing ↦
        let (ds, e, marks) = delete_children-Removes ks store id d r in
        (ds, ground arith, skip_key (hier store) id k ks ds (λ h. ground arith) marks)
    | inr (f, found) ↦ elim (Bool-cases (has_parent id f.parent_id)) [
      | inl hit ↦
          let (ds, e, marks) =
            visit_child k ks store id d r (ground (arith, has_parent-eq id f.parent_id hit))
              (λ store' r'. delete_children-Removes ks store' id d r') in
          (ds, ground (arith, r.ids k f found), marks)
      | inr miss ↦
          let (ds, e, marks) = delete_children-Removes ks store id d r in
          (
            ds,
            ground arith,
            skip_key (hier store) id k ks ds
                (λ h. ground (arith, has_parent-ne id f.parent_id miss)) marks,
          )
    ]
  ]

delete_focus_locked-Ready :
    (n : ℕ) (store : Store) (id d : ℕ)
    → Ready store id d n
    → Removes (Below (hier store) id) store (delete_focus_locked n id store)
unfolding delete_focus_locked remove_all
delete_focus_locked-Ready zero store id d r = absurd (omega (arith, r.bounded id d self r.rooted))
delete_focus_locked-Ready (suc n) store id d r =
    let (ds, e, marks) =
      delete_children-Removes n (delete_focus_locked-Ready n) (keys store.focuses) store id d r in
    (
      ds ++ id ∷ [],
      ground (arith, remove_all-append ds (id ∷ []) store),
      add_self store id ds marks,
    )

-- On a well-formed store the deletion of a focus ends, and removes the focus and what lies below it,
-- one focus after the other, and no other focus.
pub delete_focus_locked-Removes :
    (store : Store) (id : Uuid)
    → IsValid store
    → ¬ (lookup id store.focuses ≡ none)
    → Removes (Below (hier store) id) store (delete_focus_locked (length store.focuses) id store)
delete_focus_locked-Removes store id v there = elim (Option-cases (lookup id store.focuses)) [
  | inl missing ↦ absurd (there missing)
  | inr (f, found) ↦
      let (d, r) = v.forest id f.parent_id (ground arith) in
      delete_focus_locked-Ready (length store.focuses) store id d (record {
        forest = v.forest;
        ids = v.focus_ids;
        rooted = r;
        bounded = λ x e b s. omega (arith, parents-depth-lt store.focuses s);
      })
]
