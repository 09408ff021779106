-- ===== src/Common/Members.antt =====
-- Lists of numbers as sets.
use Prim.Native.Nat.{ℕ}
use mathlib.Core.Path.{◌≡◌, refl}
use mathlib.Core.Logic.{◌⊎◌, inl, inr}
use mathlib.Core.Bool.{Bool, true, false}
use mathlib.Core.List.{List, [], ◌∷◌, ◌++◌}
use mathlib.Core.Option.{none}
use native.Mathlib.Omega.{arith}
use focus_flow.Common.Lists.{keep_if}
use focus_flow.Common.Maps.{Map, lookup, keys}
use focus_flow.Common.Tests.{◌==◌, if◌then◌else◌}

abbrev pub member : ℕ → List ℕ → Bool
member x [] = false
member x (y ∷ ys) = if x == y then true else member x ys

-- `ds` lists exactly the numbers with a property, which is thereby decided.
abbrev pub Marks {ℓ} : (ℕ → Type ℓ) → List ℕ → Type ℓ
Marks P ds = (x : ℕ) → (P x × (member x ds ≡ true)) ⊎ ((¬ P x) × (member x ds ≡ false))

pub Marks-iff {ℓ κ} :
    {P : ℕ → Type ℓ} {Q : ℕ → Type κ} (ds : List ℕ)
    → ((x : ℕ) → P x → Q x)
    → ((x : ℕ) → Q x → P x)
    → Marks P ds
    → Marks Q ds
Marks-iff ds to from marks x = elim (marks x) [
  | inl (p, m) ↦ inl (to x p, m)
  | inr (out, m) ↦ inr (λ q. out (from x q), m)
]

pub member-append :
    (x : ℕ) (xs ys : List ℕ) → member x (xs ++ ys) ≡ (if member x xs then true else member x ys)
member-append x [] ys = refl
member-append x (z ∷ xs) ys = ground (arith, member-append x xs ys)

pub keys-member {ℓ} :
    {V : Type ℓ} (x : ℕ) (m : Map V) → ¬ (lookup x m ≡ none) → member x (keys m) ≡ true
keys-member x [] h = absurd (h refl)
keys-member x (e ∷ m) h = ground (arith, keys-member x m)

-- One filter behind another.
pub keep_if-keep_if {ℓ} :
    {A : Type ℓ} (p q : A → Bool) (xs : List A)
    → keep_if p (keep_if q xs) ≡ keep_if (λ x. if q x then p x else false) xs
keep_if-keep_if p q [] = refl
keep_if-keep_if p q (x ∷ xs) = ground (arith, keep_if-keep_if p q xs)

pub keep_if-ext {ℓ} :
    {A : Type ℓ} (p q : A → Bool) (xs : List A)
    → ((x : A) → p x ≡ q x)
    → keep_if p xs ≡ keep_if q xs
keep_if-ext p q [] h = refl
keep_if-ext p q (x ∷ xs) h = ground (arith, h x, keep_if-ext p q xs h)

pub keep_if_all {ℓ} :
    {A : Type ℓ} (p : A → Bool) (xs : List A) → ((x : A) → p x ≡ true) → keep_if p xs ≡ xs
keep_if_all p [] h = refl
keep_if_all p (x ∷ xs) h = ground (arith, h x, keep_if_all p xs h)
