-- ===== src/Forest/Change.antt =====
-- Forests under the two changes that a store makes: an object gets a parent, and a subtree goes.
use focus_flow.Common.{
  ℕ, zero, suc, ◌≡◌, refl, sym, ◌∙◌, subst, ◌⊎◌, inl, inr, Option, none, some, eq-cases,
}
use focus_flow.Forest.{Parents, Rooted, root, child, Below, self, under, IsForest}
use focus_flow.Forest.Order.{Below-self}

-- `up'` is `up` without the subtree of `a`.
abbrev pub Prunes : Parents → ℕ → Parents → Type 0
Prunes up a up' = (x : ℕ) → (Below up a x × (up' x ≡ none)) ⊎ ((¬ Below up a x) × (up' x ≡ up x))

-- `up'` is `up` with the parent of `id` set to `q`.
pub record Reparents (up : Parents) (id : ℕ) (q : Option ℕ) (up' : Parents) : Type 0 where
  pub here : up' id ≡ some q
  pub elsewhere : (x : ℕ) → ¬ (x ≡ id) → up' x ≡ up x

module _ {up up' : Parents} {a : ℕ} (keep : (x : ℕ) → ¬ Below up a x → up' x ≡ up x) where
  -- A chain of parents that does not meet the subtree stays as it is.
  pub Rooted-outside : {d x : ℕ} → Rooted up d x → ¬ Below up a x → Rooted up' d x
  Rooted-outside {x = x} (root h) out = root (keep x out ∙ h)
  Rooted-outside {x = x} (child p h r) out =
      child p (keep x out ∙ h) (Rooted-outside r (λ k. out (under p h k)))

module _ {up up' : Parents} (forest : IsForest up) where
  -- Without a subtree a forest is a forest.
  pub prune-IsForest : (a : ℕ) → Prunes up a up' → IsForest up'
  prune-IsForest a prunes x q h = elim (prunes x) [
    | inl (below, gone) ↦ cc
    | inr (out, same) ↦ let (d, r) = forest x q (sym same ∙ h) in (d, Rooted-outside keep r out)
  ]
    where
      keep : (y : ℕ) → ¬ Below up a y → up' y ≡ up y
      keep y out = elim (prunes y) [ inl (below, gone) ↦ absurd (out below) | inr (_, same) ↦ same ]

  -- A new object, or one that moves, keeps the forest if its parent is not below it.
  pub reparent-IsForest :
      (id : ℕ) (q : Option ℕ)
      → Reparents up id q up'
      → ((p : ℕ) → q ≡ some p → (d : ℕ) × Rooted up d p × (¬ Below up id p))
      → IsForest up'
  reparent-IsForest id q change above x s h = elim (eq-cases x id) [
    | inl same ↦ subst (λ y. (d : ℕ) × Rooted up' d y) (sym same) (moved q refl)
    | inr differ ↦ let (d, r) = forest x s (sym (change.elsewhere x differ) ∙ h) in rest r
  ]
    where
      keep : (y : ℕ) → ¬ Below up id y → up' y ≡ up y
      keep y out = change.elsewhere y (λ e. out (Below-self e))

      moved : (t : Option ℕ) → q ≡ t → (d : ℕ) × Rooted up' d id
      moved none e = (zero, root (change.here ∙ (λ i. some (e i))))
      moved (some p) e =
          let (d, r, out) = above p e in
          (suc d, child p (change.here ∙ (λ i. some (e i))) (Rooted-outside keep r out))

      rest : {e y : ℕ} → Rooted up e y → (d : ℕ) × Rooted up' d y
      rest {y = y} (root k) = elim (eq-cases y id) [
        | inl same ↦ subst (λ z. (d : ℕ) × Rooted up' d z) (sym same) (moved q refl)
        | inr differ ↦ (zero, root (change.elsewhere y differ ∙ k))
      ]
      rest {y = y} (child p k r) =
          let (d, above_r) = rest r in
          elim (eq-cases y id) [
            | inl same ↦ subst (λ z. (d : ℕ) × Rooted up' d z) (sym same) (moved q refl)
            | inr differ ↦ (suc d, child p (change.elsewhere y differ ∙ k) above_r)
          ]

-- What a smaller hierarchy says holds in the larger one.
module _ {up up' : Parents} (sub : (x : ℕ) (q : Option ℕ) → up' x ≡ some q → up x ≡ some q) where
  pub Below-mono : {a x : ℕ} → Below up' a x → Below up a x
  Below-mono self = self
  Below-mono {x = x} (under p h k) = under p (sub x (some p) h) (Below-mono k)

  pub Rooted-mono : {d x : ℕ} → Rooted up' d x → Rooted up d x
  Rooted-mono {x = x} (root h) = root (sub x none h)
  Rooted-mono {x = x} (child p h r) = child p (sub x (some p) h) (Rooted-mono r)

-- A chain that avoids a subtree is still there when the subtree is gone.
module _ {up up' : Parents} {a : ℕ} (keep : (x : ℕ) → ¬ Below up a x → up' x ≡ up x) where
  pub Below-outside : {c x : ℕ} → Below up c x → ¬ Below up a x → Below up' c x
  Below-outside self out = self
  Below-outside {x = x} (under p h k) out =
      under p (keep x out ∙ h) (Below-outside k (λ m. out (under p h m)))
