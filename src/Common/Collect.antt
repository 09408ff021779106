-- ===== src/Common/Collect.antt =====
-- The loop `for _, v := range m { if p(v) { items = append(items, h(v)) } }`.
use Prim.Native.Nat.{ℕ, ◌≤◌}
use mathlib.Core.Path.{◌≡◌, sym, ap, ◌∙◌, subst}
use mathlib.Core.Logic.{◌⊎◌, inl, inr}
use mathlib.Core.Bool.{Bool, true}
use mathlib.Core.List.{List, [], ◌∷◌}
use mathlib.Core.Option.{none, some}
use native.Mathlib.Omega.{arith}
use focus_flow.Common.Lists.{All, length}
use focus_flow.Common.Maps.{Map, lookup, Distinct}
use focus_flow.Common.Sorting.{Any, DistinctKeys}
use focus_flow.Common.Tests.{if◌then◌else◌, Bool-cases, eq-cases}

module _ {V T : Type 0} (p : V → Bool) (h : V → T) where
  unfoldable pub collect_if : Map V → List T
  collect_if [] = []
  collect_if ((k, v) ∷ m) = if p v then h v ∷ collect_if m else collect_if m

  pub length-collect_if-le : (m : Map V) → length (collect_if m) ≤ length m
  unfolding collect_if
  length-collect_if-le [] = omega arith
  length-collect_if-le ((k, v) ∷ m) = ground (arith, length-collect_if-le m)

  -- An entry that passes the test, with what was made of it.
  abbrev pub Source : (T → Type 0) → Map V → Type 0
  Source P m = (k : ℕ) × (v : V) × (lookup k m ≡ some v) × (p v ≡ true) × P (h v)

  module _ (P : T → Type 0) where
    Source-later :
        (j : ℕ) (w : V) (m : Map V) → lookup j m ≡ none → Source P m → Source P ((j, w) ∷ m)
    Source-later j w m new (k, v, found, test, q) = (k, v, ground arith, test, q)

    -- What some collected item satisfies comes from an entry.
    pub Any-collect_if : (m : Map V) → Distinct m → Any P (collect_if m) → Source P m
    unfolding collect_if
    Any-collect_if [] d a = absurd a
    Any-collect_if ((j, w) ∷ m) d a = elim (Bool-cases (p w)) [
      | inl hit ↦ first (Any-collect_if m d.1) hit (rw hit at a)
      | inr miss ↦ Source-later j w m d.0 (Any-collect_if m d.1 (rw miss at a))
    ]
      where
        first :
            (Any P (collect_if m) → Source P m)
            → p w ≡ true
            → (P (h w) ⊎ Any P (collect_if m))
            → Source P ((j, w) ∷ m)
        first rec hit (inl here) = (j, w, ground arith, hit, here)
        first rec hit (inr rest) = Source-later j w m d.0 (rec rest)

    -- And every entry that passes the test is collected.
    pub collect_if-Any :
        (m : Map V) (k : ℕ) (v : V)
        → lookup k m ≡ some v
        → p v ≡ true
        → P (h v)
        → Any P (collect_if m)
    unfolding collect_if
    collect_if-Any [] k v found test q = cc
    collect_if-Any ((j, w) ∷ m) k v found test q = elim (eq-cases k j) [
      | inl same ↦
          let own : v ≡ w = ground arith in
          rw (ap p (sym own) ∙ test) (inl (subst (λ z. P (h z)) own q))
      | inr differ ↦ elim (Bool-cases (p w)) [
        | inl hit ↦ rw hit (inr (collect_if-Any m k v (ground arith) test q))
        | inr miss ↦ rw miss (collect_if-Any m k v (ground arith) test q)
      ]
    ]

    pub All-collect_if :
        (m : Map V)
        → Distinct m
        → ((k : ℕ) (v : V) → lookup k m ≡ some v → P (h v))
        → All P (collect_if m)
    unfolding collect_if
    All-collect_if [] d all = tt
    All-collect_if ((j, w) ∷ m) d all =
        let rest = All-collect_if m d.1 (λ k v found. all k v (ground arith)) in
        let here = all j w (ground arith) in
        elim (Bool-cases (p w)) [ inl hit ↦ rw hit (here, rest) | inr miss ↦ rw miss rest ]

  -- If items carry the keys of their entries, no key is collected twice.
  pub collect_if-DistinctKeys :
      (key : T → ℕ) (m : Map V)
      → Distinct m
      → ((k : ℕ) (v : V) → lookup k m ≡ some v → key (h v) ≡ k)
      → DistinctKeys key (collect_if m)
  unfolding collect_if
  collect_if-DistinctKeys key [] d keys = tt
  collect_if-DistinctKeys key ((j, w) ∷ m) d keys =
      let rest = collect_if-DistinctKeys key m d.1 (λ k v found. keys k v (ground arith)) in
      let own : key (h w) ≡ j = keys j w (ground arith) in
      let others =
        All-collect_if (λ y. ¬ (key y ≡ key (h w))) m d.1
          (λ k v found same. ground (arith, keys k v)) in
      elim (Bool-cases (p w)) [ inl hit ↦ rw hit (others, rest) | inr miss ↦ rw miss rest ]
