-- ===== src/Fake/Hierarchy/Descent.antt =====
-- What isDescendantLocked and ensureCanMoveFocusLocked decide.
use focus_flow.Common.{
  ℕ, zero, suc, ◌<◌, ◌≡◌, sym, subst, ◌⊎◌, inl, inr, true, false, none, some, arith, Map, lookup,
  length, eq-cases, Option-cases,
}
use focus_flow.Storage.{Outcome, ok, err, not_found, invalid_hierarchy}
use focus_flow.Forest.{Rooted, root, child, Below, under, Descendant, IsForest}
use focus_flow.Forest.Order.{Below-split, Below-self}
use focus_flow.Forest.Bound.{depth-lt}
use focus_flow.Model.{Uuid, FocusFields}
use focus_flow.Fake.State.{Store}
use focus_flow.Fake.Hierarchy.{is_descendant, ensure_can_move}
use focus_flow.Fake.Valid.{parents}

-- A forest is not deeper than its map is long.
pub parents-depth-lt : (m : Map FocusFields) {d x : ℕ} → Rooted (parents m) d x → d < length m
parents-depth-lt m = depth-lt m (λ y q h none_y. ground arith)

module _ (m : Map FocusFields) (a : Uuid) where
  not-Descendant_root : (x : ℕ) → parents m x ≡ some none → ¬ Descendant (parents m) a x
  not-Descendant_root x h (p, e, k) = cc

  not-Descendant_under :
      (x p : ℕ)
      → parents m x ≡ some (some p)
      → ¬ (p ≡ a)
      → ¬ Descendant (parents m) a p
      → ¬ Descendant (parents m) a x
  not-Descendant_under x p h differ out (q, k, b) =
      elim (Below-split (subst (Below (parents m) a) same b)) [
        | inl hit ↦ differ hit
        | inr deeper ↦ out deeper
      ]
    where
      same : q ≡ p
      same = cc

  -- The verdict on `x`, in terms of that on its parent.
  abbrev pub Decides : ℕ → ℕ → Type 0
  Decides fuel x =
      ((is_descendant fuel m x a ≡ some true) × Descendant (parents m) a x)
      ⊎ ((is_descendant fuel m x a ≡ some false) × (¬ Descendant (parents m) a x))

  -- With fuel above the depth the recursion ends, and says whether `a` is a proper ancestor.
  pub is_descendant-Decides :
      (fuel : ℕ) {d x : ℕ} → Rooted (parents m) d x → d < fuel → Decides fuel x
  unfolding is_descendant
  is_descendant-Decides zero r lt = absurd (omega arith)
  is_descendant-Decides (suc fuel) {x = x} (root h) lt = inr (ground arith, not-Descendant_root x h)
  is_descendant-Decides (suc fuel) {x = x} (child p h r) lt = elim (eq-cases p a) [
    | inl same ↦ inl (ground arith, (p, h, Below-self same))
    | inr differ ↦ elim (is_descendant-Decides fuel r (omega arith)) [
      | inl (e, (q, k, b)) ↦ inl (ground arith, (p, h, under q k b))
      | inr (e, out) ↦ inr (ground arith, not-Descendant_under x p h differ out)
    ]
  ]

-- The verdict on a move of `id` under `parent`.
abbrev pub MoveVerdict : Store → Uuid → Uuid → Outcome (Unit {0}) → Type 0
MoveVerdict store id parent result =
    (Below (parents store.focuses) id parent × (result ≡ err invalid_hierarchy))
    ⊎ ((¬ Below (parents store.focuses) id parent)
        × (lookup parent store.focuses ≡ none)
        × (result ≡ err not_found))
    ⊎ ((¬ Below (parents store.focuses) id parent)
        × (¬ (lookup parent store.focuses ≡ none))
        × (result ≡ ok tt))

module _ (store : Store) (forest : IsForest (parents store.focuses)) where
  not-Below_strict :
      (id parent : Uuid)
      → ¬ (id ≡ parent)
      → ¬ Descendant (parents store.focuses) id parent
      → ¬ Below (parents store.focuses) id parent
  not-Below_strict id parent differ out below = elim (Below-split below) [
    | inl same ↦ differ (sym same)
    | inr deeper ↦ out deeper
  ]

  verdict_missing :
      (id parent : Uuid)
      → ¬ (id ≡ parent)
      → lookup parent store.focuses ≡ none
      → MoveVerdict store id parent (ensure_can_move store id parent)
  unfolding ensure_can_move
  verdict_missing id parent differ missing =
      inr
        (inl (not-Below_strict id parent differ (λ (p, e, k). ground arith), missing, ground arith))

  verdict_found :
      (id parent : Uuid) (f : FocusFields)
      → ¬ (id ≡ parent)
      → lookup parent store.focuses ≡ some f
      → MoveVerdict store id parent (ensure_can_move store id parent)
  unfolding ensure_can_move
  verdict_found id parent f differ found =
      let (d, r) = forest parent f.parent_id (ground arith) in
      elim (is_descendant-Decides store.focuses id (length store.focuses) r
        (parents-depth-lt store.focuses r)) [
          | inl (e, (p, h, k)) ↦ inl (under p h k, ground arith)
          | inr (e, out) ↦
              inr (inr (not-Below_strict id parent differ out, λ gone. cc, ground arith))
        ]

  -- In a forest ensureCanMoveFocusLocked refuses a move as an invalid hierarchy exactly if the
  -- parent lies in the subtree that moves, as not found exactly if it does not and there is no
  -- such parent, and otherwise allows it; the check ends.
  pub ensure_can_move-verdict :
      (id parent : Uuid) → MoveVerdict store id parent (ensure_can_move store id parent)
  unfolding ensure_can_move
  ensure_can_move-verdict id parent = elim (eq-cases id parent) [
    | inl same ↦ inl (Below-self (sym same), ground arith)
    | inr differ ↦ elim (Option-cases (lookup parent store.focuses)) [
      | inl missing ↦ verdict_missing id parent differ missing
      | inr (f, found) ↦ verdict_found id parent f differ found
    ]
  ]
