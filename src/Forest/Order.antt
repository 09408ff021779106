-- ===== src/Forest/Order.antt =====
-- Depth in a forest, and the order of descent.
use focus_flow.Common.{
  ℕ, suc, ◌≤◌, ◌≡◌, refl, sym, ap, subst, ◌⊎◌, inl, inr, Option, none, some, arith, eq-cases,
}
use focus_flow.Forest.{Parents, Rooted, root, child, Below, self, under, Descendant}

module _ {up : Parents} where
  -- The depth is determined.
  pub Rooted-unique : {d e x : ℕ} → Rooted up d x → Rooted up e x → d ≡ e
  Rooted-unique (root h) (root k) = refl
  Rooted-unique (root h) (child p k r) = cc
  Rooted-unique (child p h r) (root k) = cc
  Rooted-unique {x = x} (child {d = d} p h r) (child q k s) =
      ap suc (Rooted-unique (subst (Rooted up d) (ground arith) r) s)

  -- The parent of a rooted object is rooted, one step higher.
  pub Rooted-parent :
      {d x p : ℕ} → Rooted up d x → up x ≡ some (some p) → (e : ℕ) × (d ≡ suc e) × Rooted up e p
  Rooted-parent (root h) k = cc
  Rooted-parent (child {d = d} p h r) k = (d, refl, subst (Rooted up d) (ground arith) r)

  pub Rooted-up : {d x : ℕ} → Rooted up d x → (q : Option ℕ) × (up x ≡ some q)
  Rooted-up (root h) = (none, h)
  Rooted-up (child p h r) = (some p, h)

  pub Below-trans : {a b x : ℕ} → Below up a b → Below up b x → Below up a x
  Below-trans h self = h
  Below-trans h (under p e k) = under p e (Below-trans h k)

  pub Below-eq : {a b x : ℕ} → a ≡ b → Below up b x → Below up a x
  Below-eq {x = x} e h = subst (λ c. Below up c x) (sym e) h

  pub Below-self : {a x : ℕ} → x ≡ a → Below up a x
  Below-self {a} e = subst (Below up a) (sym e) self

  -- What is below a rooted object is rooted, and not higher than it.
  pub Below-Rooted : {a d x : ℕ} → Below up a x → Rooted up d a → (e : ℕ) × Rooted up e x × (d ≤ e)
  Below-Rooted {d = d} self r = (d, r, omega arith)
  Below-Rooted (under p e k) r =
      let (f, s, h) = Below-Rooted k r in (suc f, child p e s, omega arith)

  -- The head of what is below a rooted object is rooted as well.
  pub Below-head :
      {a x : ℕ} → Below up a x → {e : ℕ} → Rooted up e x → (d : ℕ) × Rooted up d a × (d ≤ e)
  Below-head self {e} r = (e, r, omega arith)
  Below-head (under p h k) r =
      let (f, eq, s) = Rooted-parent r h in let (d, t, le) = Below-head k s in (d, t, omega arith)

  -- A child's subtree does not hold its parent.
  pub not-Below-child : {a c d : ℕ} → Rooted up d a → up c ≡ some (some a) → ¬ Below up c a
  not-Below-child {a} r h k =
      let (e, s, le) = Below-Rooted k (child a h r) in absurd (omega (arith, Rooted-unique r s))

  -- Below means: the object itself, or below one of its children.
  pub Below-cases :
      {a x : ℕ} → Below up a x → (x ≡ a) ⊎ ((c : ℕ) × (up c ≡ some (some a)) × Below up c x)
  Below-cases self = inl refl
  Below-cases {x = x} (under p e k) = elim (Below-cases k) [
    | inl same ↦ inr (x, subst (λ q. up x ≡ some (some q)) same e, self)
    | inr (c, h, m) ↦ inr (c, h, under p e m)
  ]

  pub Descendant-Below : {a x : ℕ} → Descendant up a x → Below up a x
  Descendant-Below (p, e, k) = under p e k

  -- In a forest it can be decided whether an object lies below another.
  pub Below-dec : {d x : ℕ} (a : ℕ) → Rooted up d x → Below up a x ⊎ ¬ Below up a x
  Below-dec {x = x} a r = elim (eq-cases x a) [
    | inl same ↦ inl (Below-self same)
    | inr differ ↦ go r differ
  ]
    where
      unroot : {y : ℕ} → up y ≡ some none → ¬ (y ≡ a) → ¬ Below up a y
      unroot h ne self = ne refl
      unroot h ne (under p e k) = cc

      strip : {y p : ℕ} → up y ≡ some (some p) → ¬ (y ≡ a) → Below up a y → Below up a p
      strip h ne self = absurd (ne refl)
      strip h ne (under q e k) = subst (Below up a) (ground arith) k

      go : {e y : ℕ} → Rooted up e y → ¬ (y ≡ a) → Below up a y ⊎ ¬ Below up a y
      go (root h) ne = inr (unroot h ne)
      go (child p h s) ne = elim (eq-cases p a) [
        | inl same ↦ inl (under p h (Below-self same))
        | inr differ ↦ elim (go s differ) [
          | inl below ↦ inl (under p h below)
          | inr outside ↦ inr (λ k. outside (strip h ne k))
        ]
      ]

  -- Below means: the object itself, or a proper descendant.
  pub Below-split : {a x : ℕ} → Below up a x → (x ≡ a) ⊎ Descendant up a x
  Below-split self = inl refl
  Below-split (under p e k) = inr (p, e, k)
