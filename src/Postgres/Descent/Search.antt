-- ===== src/Postgres/Descent/Search.antt =====
-- What the recursive query finds, and that it ends on a forest.
use focus_flow.Common.{
  ℕ, zero, suc, ◌+◌, ◌≤◌, ◌<◌, ◌≡◌, refl, sym, subst, ◌⊎◌, inl, inr, Bool, true, false, some,
  Option, List, [], ◌∷◌, arith, Map, length, member, Bool-cases,
}
use focus_flow.Forest.{Rooted, child, Below, self, under}
use focus_flow.Forest.Order.{Below-cases, Below-trans}
use focus_flow.Forest.Bound.{depth-lt}
use focus_flow.Model.{Uuid}
use focus_flow.Postgres.{FocusObjectRow}
use focus_flow.Postgres.Descent.{hierarchy, children_of, exists_below}
use focus_flow.Postgres.Descent.Members.{member-children_of, children_of-member}

pub rows-depth-lt :
    (rows : Map FocusObjectRow) {d x : ℕ} → Rooted (hierarchy rows) d x → d < length rows
rows-depth-lt rows = depth-lt rows (λ y q h none_y. ground arith)

module _ (rows : Map FocusObjectRow) (target : Uuid) where
  -- The target lies below a member of the level.
  abbrev pub Reached : List Uuid → Type 0
  Reached level = (m : Uuid) × (member m level ≡ true) × Below (hierarchy rows) m target

  abbrev pub Finds : Option Bool → List Uuid → Type 0
  Finds result level =
      ((result ≡ some true) × Reached level) ⊎ ((result ≡ some false) × (¬ Reached level))

  -- Every member of the level is at least so deep.
  abbrev pub Deep : ℕ → List Uuid → Type 0
  Deep k level =
      (m : Uuid) → member m level ≡ true → (d : ℕ) × Rooted (hierarchy rows) d m × (k ≤ d)

  Deep-children_of :
      (k : ℕ) (level : List Uuid) → Deep k level → Deep (suc k) (children_of level rows)
  Deep-children_of k level deep c m =
      let (p, h, l) = children_of-member level rows c m in
      let (d, r, le) = deep p l in (suc d, child p h r, omega arith)

  Reached-down :
      (level : List Uuid)
      → member target level ≡ false
      → Reached level
      → Reached (children_of level rows)
  Reached-down level absent (m, l, b) = elim (Below-cases b) [
    | inl same ↦ absurd (false_true (subst (λ z. member z level ≡ true) (sym same) l))
    | inr (c, h, k) ↦ (c, member-children_of level rows c m h l, k)
  ]
    where
      false_true : ¬ (member target level ≡ true)
      false_true = λ e. cc

  Reached-up : (level : List Uuid) → Reached (children_of level rows) → Reached level
  Reached-up level (c, m, b) =
      let (p, h, l) = children_of-member level rows c m in (p, l, Below-trans (under p h self) b)

  -- With fuel for the levels that are left the search ends, and says whether the target lies below
  -- a member of the level.
  pub exists_below-Finds :
      (fuel k : ℕ) (level : List Uuid)
      → Deep k level
      → length rows ≤ k + fuel
      → Finds (exists_below fuel level rows target) level
  unfolding exists_below
  exists_below-Finds fuel k [] deep le = inr (refl, λ (m, l, b). cc)
  exists_below-Finds zero k (x ∷ level) deep le =
      let (d, r, h) = deep x (ground arith) in absurd (omega (arith, rows-depth-lt rows r))
  exists_below-Finds (suc fuel) k (x ∷ level) deep le =
      elim (Bool-cases (member target (x ∷ level))) [
        | inl hit ↦ inl (ground arith, (target, hit, self))
        | inr miss ↦
            elim (exists_below-Finds fuel (suc k) (children_of (x ∷ level) rows)
              (Deep-children_of k (x ∷ level) deep) (omega arith)) [
                | inl (e, reached) ↦ inl (ground arith, Reached-up (x ∷ level) reached)
                | inr (e, out) ↦
                    inr (ground arith, λ reached. out (Reached-down (x ∷ level) miss reached))
              ]
      ]
