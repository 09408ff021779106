-- ===== src/Common/Maps.antt =====
-- A Go map keyed by numbers, as an association list. `range` visits the entries in the order of
-- the list; which order that is, the language leaves open.
use Prim.Native.Nat.{ℕ, suc, ◌≤◌}
use mathlib.Core.Path.{◌≡◌, refl}
use mathlib.Core.Bool.{Bool}
use mathlib.Core.List.{List, [], ◌∷◌}
use mathlib.Core.Option.{Option, none, some}
use native.Mathlib.Omega.{arith}
use focus_flow.Common.Lists.{length}
use focus_flow.Common.Tests.{◌==◌, if◌then◌else◌, is_some}

abbrev pub Map {ℓ} : Type ℓ → Type ℓ
Map V = List (ℕ × V)

module _ {ℓ} {V : Type ℓ} where
  -- `v, ok := m[k]`
  abbrev pub lookup : ℕ → Map V → Option V
  lookup k [] = none
  lookup k ((j, v) ∷ m) = if k == j then some v else lookup k m

  -- `_, ok := m[k]`
  abbrev pub contains : ℕ → Map V → Bool
  contains k m = is_some (lookup k m)

  -- `m[k] = v`
  abbrev pub insert : ℕ → V → Map V → Map V
  insert k v [] = (k, v) ∷ []
  insert k v ((j, w) ∷ m) = if k == j then (k, v) ∷ m else (j, w) ∷ insert k v m

  -- `delete(m, k)`
  abbrev pub erase : ℕ → Map V → Map V
  erase k [] = []
  erase k ((j, v) ∷ m) = if k == j then erase k m else (j, v) ∷ erase k m

  -- The keys, as `range` meets them.
  abbrev pub keys : Map V → List ℕ
  keys [] = []
  keys ((k, v) ∷ m) = k ∷ keys m

  -- No key stands twice.
  abbrev pub Distinct : Map V → Type ℓ
  Distinct [] = Unit
  Distinct ((k, v) ∷ m) = (lookup k m ≡ none) × Distinct m

  pub lookup-insert :
      (j k : ℕ) (v : V) (m : Map V)
      → lookup j (insert k v m) ≡ (if j == k then some v else lookup j m)
  lookup-insert j k v [] = refl
  lookup-insert j k v (e ∷ m) = ground (arith, lookup-insert j k v m)

  pub lookup-erase :
      (j k : ℕ) (m : Map V) → lookup j (erase k m) ≡ (if j == k then none else lookup j m)
  lookup-erase j k [] = ground arith
  lookup-erase j k (e ∷ m) = ground (arith, lookup-erase j k m)

  pub insert-Distinct : (k : ℕ) (v : V) (m : Map V) → Distinct m → Distinct (insert k v m)
  insert-Distinct k v [] h = (refl, tt)
  insert-Distinct k v (e ∷ m) h = ground (arith, insert-Distinct k v m h.1, lookup-insert e.0 k v m)

  pub erase-Distinct : (k : ℕ) (m : Map V) → Distinct m → Distinct (erase k m)
  erase-Distinct k [] h = tt
  erase-Distinct k (e ∷ m) h = ground (arith, erase-Distinct k m h.1, lookup-erase e.0 k m)

  pub length-erase-le : (k : ℕ) (m : Map V) → length (erase k m) ≤ length m
  length-erase-le k [] = omega arith
  length-erase-le k (e ∷ m) = ground (arith, length-erase-le k m)

  -- Erasing a key that is there makes the map smaller.
  pub length-erase-lt :
      (k : ℕ) (m : Map V) → ¬ (lookup k m ≡ none) → suc (length (erase k m)) ≤ length m
  length-erase-lt k [] h = absurd (h refl)
  length-erase-lt k (e ∷ m) h = ground (arith, length-erase-le k m, length-erase-lt k m)
