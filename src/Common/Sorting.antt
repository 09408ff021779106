-- ===== src/Common/Sorting.antt =====
-- What holds of some element of a list, and `sort.Slice`: it keeps the elements, and puts them in
-- order of a numeric key.
use Prim.Native.Nat.{suc, ℕ, ◌<◌}
use mathlib.Core.Path.{◌≡◌, refl}
use mathlib.Core.Logic.{◌⊎◌, ◌↔◌, inl, inr}
use mathlib.Core.Bool.{Bool}
use mathlib.Core.List.{List, [], ◌∷◌}
use native.Mathlib.Omega.{arith}
use focus_flow.Common.Lists.{All-mono, All, insert_sorted, sort_slice, length}
use focus_flow.Common.Tests.{ltb, Bool-cases}

module _ {ℓ} {A : Type ℓ} where
  -- What holds of some element.
  abbrev pub Any : (A → Type 0) → List A → Type 0
  Any P [] = ⊥
  Any P (x ∷ xs) = P x ⊎ Any P xs

module _ {ℓ} {A : Type ℓ} (less : A → A → Bool) where
  module _ (P : A → Type 0) where
    Any-insert : (x : A) (ys : List A) → (P x ⊎ Any P ys) → Any P (insert_sorted less x ys)
    Any-insert x [] h = h
    Any-insert x (y ∷ ys) h = elim (Bool-cases (less y x)) [
      | inr stop ↦ rw stop h
      | inl go ↦ rw go (elim h [
        | inl here ↦ inr (Any-insert x ys (inl here))
        | inr (inl first) ↦ inl first
        | inr (inr later) ↦ inr (Any-insert x ys (inr later))
      ])
    ]

    Any-of_insert : (x : A) (ys : List A) → Any P (insert_sorted less x ys) → P x ⊎ Any P ys
    Any-of_insert x [] h = h
    Any-of_insert x (y ∷ ys) h = elim (Bool-cases (less y x)) [
      | inr stop ↦ rw stop at h
      | inl go ↦ swap (Any-of_insert x ys) (rw go at h)
    ]
      where
        swap :
            (Any P (insert_sorted less x ys) → P x ⊎ Any P ys)
            → (P y ⊎ Any P (insert_sorted less x ys))
            → P x ⊎ (P y ⊎ Any P ys)
        swap rec (inl first) = inr (inl first)
        swap rec (inr later) = elim (rec later) [ inl here ↦ inl here | inr rest ↦ inr (inr rest) ]

    to_sort : (xs : List A) → Any P xs → Any P (sort_slice less xs)
    to_sort [] h = h
    to_sort (x ∷ xs) (inl here) = Any-insert x (sort_slice less xs) (inl here)
    to_sort (x ∷ xs) (inr later) = Any-insert x (sort_slice less xs) (inr (to_sort xs later))

    of_sort : (xs : List A) → Any P (sort_slice less xs) → Any P xs
    of_sort [] h = h
    of_sort (x ∷ xs) h = elim (Any-of_insert x (sort_slice less xs) h) [
      | inl here ↦ inl here
      | inr later ↦ inr (of_sort xs later)
    ]

    -- Sorting keeps what some element satisfies.
    pub Any-sort : (xs : List A) → Any P (sort_slice less xs) ↔ Any P xs
    Any-sort xs = (of_sort xs, to_sort xs)

    All-insert : (x : A) (ys : List A) → P x → All P ys → All P (insert_sorted less x ys)
    All-insert x [] p h = (p, h)
    All-insert x (y ∷ ys) p h = elim (Bool-cases (less y x)) [
      | inr stop ↦ rw stop (p, h)
      | inl go ↦ rw go (h.0, All-insert x ys p h.1)
    ]

    pub All-sort : (xs : List A) → All P xs → All P (sort_slice less xs)
    All-sort [] h = h
    All-sort (x ∷ xs) h = All-insert x (sort_slice less xs) h.0 (All-sort xs h.1)

  length-insert : (x : A) (ys : List A) → length (insert_sorted less x ys) ≡ suc (length ys)
  length-insert x [] = refl
  length-insert x (y ∷ ys) = ground (arith, length-insert x ys)

  pub length-sort : (xs : List A) → length (sort_slice less xs) ≡ length xs
  length-sort [] = refl
  length-sort (x ∷ xs) = omega (arith, length-insert x (sort_slice less xs), length-sort xs)

module _ {ℓ} {A : Type ℓ} (key : A → ℕ) where
  -- The keys rise along the list.
  abbrev pub Rising : List A → Type 0
  Rising [] = Unit
  Rising (x ∷ xs) = All (λ y. key x < key y) xs × Rising xs

  -- No key stands twice.
  abbrev pub DistinctKeys : List A → Type 0
  DistinctKeys [] = Unit
  DistinctKeys (x ∷ xs) = All (λ y. ¬ (key y ≡ key x)) xs × DistinctKeys xs

  abbrev pub by_key : A → A → Bool
  by_key a b = ltb (key a) (key b)

  insert-Rising :
      (x : A) (ys : List A)
      → All (λ y. ¬ (key y ≡ key x)) ys
      → Rising ys
      → Rising (insert_sorted by_key x ys)
  insert-Rising x [] h r = (tt, tt)
  insert-Rising x (y ∷ ys) h r = elim (Bool-cases (by_key y x)) [
    | inr stop ↦
        let first : key x < key y = ground arith in
        rw stop ((first, All-mono ys (λ z lt. omega arith) r.0), r)
    | inl go ↦
        rw go (
          All-insert by_key (λ z. key y < key z) x ys (ground arith) r.0,
          insert-Rising x ys h.1 r.1,
        )
  ]

  -- With distinct keys the sorted list rises.
  pub sort-Rising : (xs : List A) → DistinctKeys xs → Rising (sort_slice by_key xs)
  sort-Rising [] h = tt
  sort-Rising (x ∷ xs) h =
      insert-Rising x (sort_slice by_key xs) (All-sort by_key (λ y. ¬ (key y ≡ key x)) xs h.0)
        (sort-Rising xs h.1)

  pub Rising-DistinctKeys : (xs : List A) → Rising xs → DistinctKeys xs
  Rising-DistinctKeys [] r = tt
  Rising-DistinctKeys (x ∷ xs) r =
      (All-mono xs (λ y lt e. omega arith) r.0, Rising-DistinctKeys xs r.1)

  insert_first :
      (x : A) (ys : List A) → All (λ y. key x < key y) ys → insert_sorted by_key x ys ≡ x ∷ ys
  insert_first x [] h = refl
  insert_first x (y ∷ ys) h = ground arith

  -- A rising list is sorted already.
  pub sort_of-Rising : (xs : List A) → Rising xs → sort_slice by_key xs ≡ xs
  sort_of-Rising [] r = refl
  sort_of-Rising (x ∷ xs) r = rw (sort_of-Rising xs r.1) (insert_first x xs r.0)
