-- ===== src/Forest/Bound.antt =====
-- In a forest whose objects are the keys of a map, no chain is longer than the map.
use focus_flow.Common.{
  ℕ, ◌<◌, ◌≡◌, subst, Option, none, some, arith, length, Map, lookup, erase, lookup-erase,
  length-erase-lt,
}
use focus_flow.Forest.{Parents, Rooted, root, child, Below, self, under}
use focus_flow.Forest.Order.{not-Below-child, Below-head, Rooted-up}

lookup-erase_other {ℓ} :
    {V : Type ℓ} (x y : ℕ) (m : Map V)
    → ¬ (y ≡ x)
    → ¬ (lookup y m ≡ none)
    → ¬ (lookup y (erase x m) ≡ none)
lookup-erase_other x y m ne h = λ e. ground (arith, lookup-erase y x m)

module _ {ℓ} {V : Type ℓ} {up : Parents} where
  chain-lt :
      {d x : ℕ}
      → Rooted up d x
      → (m : Map V) → ((y : ℕ) → Below up y x → ¬ (lookup y m ≡ none))
      → d < length m
  chain-lt {x = x} (root h) m all = omega (arith, length-erase-lt x m (all x self))
  chain-lt {x = x} (child p h r) m all = omega (
    arith,
    length-erase-lt x m (all x self),
    chain-lt r (erase x m) (λ y k.
        lookup-erase_other x y m (λ e. not-Below-child r h (subst (λ z. Below up z p) e k))
          (all y (under p h k))),
  )

  -- The depth of an object is less than the number of objects.
  pub depth-lt :
      (m : Map V)
      → ((y : ℕ) (q : Option ℕ) → up y ≡ some q → ¬ (lookup y m ≡ none))
      → {d x : ℕ} → Rooted up d x
      → d < length m
  depth-lt m all r =
      chain-lt r m λ y k. let (e, s, _) = Below-head k r in let (q, h) = Rooted-up s in all y q h
