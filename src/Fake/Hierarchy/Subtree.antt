-- ===== src/Fake/Hierarchy/Subtree.antt =====
-- The pieces of a subtree, as the recursion of deleteFocusLocked meets and removes them.
use focus_flow.Common.{
  ℕ, suc, ◌+◌, ◌<◌, ◌≡◌, ap, ◌∙◌, subst, inl, inr, true, Option, none, some, List, [], ◌∷◌, ◌++◌,
  arith, lookup, keys, member, member-append, Marks, Marks-iff, keys-member, eq-cases,
  if◌then◌else◌,
}
use focus_flow.Forest.{Parents, Rooted, child, Below, self, under, IsForest}
use focus_flow.Forest.Order.{Below-self, Below-trans, Below-cases, not-Below-child}
use focus_flow.Forest.Change.{
  Prunes, prune-IsForest, Rooted-outside, Below-mono, Rooted-mono, Below-outside,
}
use focus_flow.Model.{Uuid, FocusFields}
use focus_flow.Fake.State.{Store}
use focus_flow.Fake.Hierarchy.Removal.{remove_all, lookup-remove_all}
use focus_flow.Fake.Valid.{parents}

-- The hierarchy of a store.
abbrev pub hier : Store → Parents
hier store = parents store.focuses

-- The run removes the focuses with a property, each once or more, and ends.
abbrev pub Removes : (Uuid → Type 0) → Store → Option Store → Type 0
Removes P store result = (ds : List Uuid) × (result ≡ some (remove_all ds store)) × Marks P ds

-- Something below one of the children that `ks` lists.
abbrev pub UnderChild : Parents → Uuid → List Uuid → Uuid → Type 0
UnderChild up id ks x = (c : Uuid) × (member c ks ≡ true) × (up c ≡ some (some id)) × Below up c x

hier-remove_all :
    (ds : List Uuid) (store : Store) (x : Uuid)
    → hier (remove_all ds store) x ≡ (if member x ds then none else hier store x)
hier-remove_all ds store x = ground (arith, lookup-remove_all x ds store)

hier-sub :
    (ds : List Uuid) (store : Store) (x : Uuid) (q : Option Uuid)
    → hier (remove_all ds store) x ≡ some q
    → hier store x ≡ some q
hier-sub ds store x q h = ground (arith, hier-remove_all ds store x)

-- Removing what lies below `k` prunes the hierarchy.
pub Marks-Prunes :
    (k : Uuid) (ds : List Uuid) (store : Store)
    → Marks (Below (hier store) k) ds
    → Prunes (hier store) k (hier (remove_all ds store))
Marks-Prunes k ds store marks x = elim (marks x) [
  | inl (b, m) ↦ inl (b, hier-remove_all ds store x ∙ ap (λ t. if t then none else hier store x) m)
  | inr (out, m) ↦
      inr (out, hier-remove_all ds store x ∙ ap (λ t. if t then none else hier store x) m)
]

Marks-keep :
    (k : Uuid) (ds : List Uuid) (store : Store)
    → Marks (Below (hier store) k) ds
    → (x : Uuid) → ¬ Below (hier store) k x
    → hier (remove_all ds store) x ≡ hier store x
Marks-keep k ds store marks x out = elim (Marks-Prunes k ds store marks x) [
  | inl (b, gone) ↦ absurd (out b)
  | inr (_, same) ↦ same
]

-- What a store must satisfy for the recursion at a focus of depth `d` with `n` nested calls.
pub record Ready (store : Store) (id d n : ℕ) : Type 0 where
  pub forest : IsForest (hier store)
  pub ids : (k : Uuid) (f : FocusFields) → lookup k store.focuses ≡ some f → f.id ≡ k
  pub rooted : Rooted (hier store) d id
  pub bounded : (x e : ℕ) → Below (hier store) id x → Rooted (hier store) e x → e < d + n

-- A child is ready for one nested call less.
pub child-Ready :
    {store : Store} {id d n : ℕ} (k : Uuid)
    → Ready store id d (suc n)
    → hier store k ≡ some (some id)
    → Ready store k (suc d) n
child-Ready {store} {id} k r h = record {
  forest = r.forest;
  ids = r.ids;
  rooted = child id h r.rooted;
  bounded = λ x e b s. omega (arith, r.bounded x e (Below-trans (under id h self) b) s);
}

-- Behind the removal of a child's subtree the focus is still ready.
pub after-Ready :
    {store : Store} {id d n : ℕ} (k : Uuid) (ds : List Uuid)
    → Ready store id d n
    → hier store k ≡ some (some id)
    → Marks (Below (hier store) k) ds
    → Ready (remove_all ds store) id d n
after-Ready {store} {id} k ds r h marks = record {
  forest = prune-IsForest r.forest k (Marks-Prunes k ds store marks);
  ids = λ j f e. r.ids j f (ground (arith, lookup-remove_all j ds store));
  rooted = Rooted-outside (Marks-keep k ds store marks) r.rooted (not-Below-child r.rooted h);
  bounded = λ x e b s.
      r.bounded x e (Below-mono (hier-sub ds store) b) (Rooted-mono (hier-sub ds store) s);
}

-- An entry of the snapshot that is no child adds nothing.
pub skip_key :
    (up : Parents) (id k : Uuid) (ks ds : List Uuid)
    → ¬ (up k ≡ some (some id))
    → Marks (UnderChild up id ks) ds
    → Marks (UnderChild up id (k ∷ ks)) ds
skip_key up id k ks ds no_child =
    Marks-iff ds (λ x (c, m, h, b). (c, ground arith, h, b))
      (λ x (c, m, h, b). (c, listed c m h, h, b))
  where
    listed : (c : Uuid) → member c (k ∷ ks) ≡ true → up c ≡ some (some id) → member c ks ≡ true
    listed c m h = elim (eq-cases c k) [
      | inl same ↦ absurd (no_child (subst (λ z. up z ≡ some (some id)) same h))
      | inr differ ↦ ground arith
    ]

-- The subtree of a child and what the rest of the loop removes make up the whole.
pub join_key :
    (store : Store) (id k : Uuid) (ks ds es : List Uuid)
    → hier store k ≡ some (some id)
    → Marks (Below (hier store) k) ds
    → Marks (UnderChild (hier (remove_all ds store)) id ks) es
    → Marks (UnderChild (hier store) id (k ∷ ks)) (ds ++ es)
join_key store id k ks ds es h marks rest x = elim (marks x) [
  | inl (b, m) ↦ inl ((k, ground arith, h, b), ground (arith, member-append x ds es))
  | inr (out, m) ↦ elim (rest x) [
    | inl ((c, l, e, b), n) ↦ inl (
      (c, ground arith, hier-sub ds store c (some id) e, Below-mono (hier-sub ds store) b),
      ground (arith, member-append x ds es),
    )
    | inr (none_left, n) ↦
        inr (λ (c, l, e, b). none_left (moved c out l e b), ground (arith, member-append x ds es))
  ]
]
  where
    moved :
        (c : Uuid)
        → ¬ Below (hier store) k x
        → member c (k ∷ ks) ≡ true
        → hier store c ≡ some (some id)
        → Below (hier store) c x
        → UnderChild (hier (remove_all ds store)) id ks x
    moved c out l e b = elim (eq-cases c k) [
      | inl same ↦ absurd (out (subst (λ z. Below (hier store) z x) same b))
      | inr differ ↦ (
        c,
        ground arith,
        Marks-keep k ds store marks c (λ q. out (Below-trans q b)) ∙ e,
        Below-outside (Marks-keep k ds store marks) b out,
      )
    ]

-- The children's subtrees and the focus itself are the subtree.
pub add_self :
    (store : Store) (id : Uuid) (ds : List Uuid)
    → Marks (UnderChild (hier store) id (keys store.focuses)) ds
    → Marks (Below (hier store) id) (ds ++ id ∷ [])
add_self store id ds marks x = elim (marks x) [
  | inl ((c, l, h, b), m) ↦
      inl (Below-trans (under id h self) b, ground (arith, member-append x ds (id ∷ [])))
  | inr (out, m) ↦ elim (eq-cases x id) [
    | inl same ↦ inl (Below-self same, ground (arith, member-append x ds (id ∷ [])))
    | inr differ ↦ inr (λ b. strict b differ out, ground (arith, member-append x ds (id ∷ [])))
  ]
]
  where
    strict :
        Below (hier store) id x
        → ¬ (x ≡ id)
        → ¬ UnderChild (hier store) id (keys store.focuses) x
        → ⊥
    strict b differ out = elim (Below-cases b) [
      | inl same ↦ differ same
      | inr (c, h, k) ↦ out (c, keys-member c store.focuses (λ e. ground arith), h, k)
    ]
