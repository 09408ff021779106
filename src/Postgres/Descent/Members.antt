-- ===== src/Postgres/Descent/Members.antt =====
-- The members of a level of the descent, and what erasing a list of keys leaves.
use focus_flow.Common.{
  ℕ, suc, ◌≤◌, ◌≡◌, refl, Bool, true, false, Option, none, some, List, [], ◌∷◌, arith, Map, lookup,
  erase, keys, length, member, keep_if, if◌then◌else◌, lookup-erase, length-erase-le,
  length-erase-lt, keys-member,
}
use focus_flow.Model.{Uuid}
use focus_flow.Postgres.{FocusObjectRow}
use focus_flow.Postgres.Descent.{hierarchy, has_parent_in, children_of, erase_all}

member-keep_if :
    (x : ℕ) (p : ℕ → Bool) (xs : List ℕ)
    → member x (keep_if p xs) ≡ (if p x then member x xs else false)
member-keep_if x p [] = ground arith
member-keep_if x p (y ∷ ys) = ground (arith, member-keep_if x p ys)

pub member-children_of :
    (level : List Uuid) (rows : Map FocusObjectRow) (c p : Uuid)
    → hierarchy rows c ≡ some (some p)
    → member p level ≡ true
    → member c (children_of level rows) ≡ true
unfolding children_of
member-children_of level rows c p h m = ground (
  arith,
  member-keep_if c (λ k. has_parent_in level (hierarchy rows k)) (keys rows),
  keys-member c rows (λ e. ground arith),
)

has_parent_in-some :
    (level : List Uuid) (o : Option (Option Uuid))
    → has_parent_in level o ≡ true
    → (p : Uuid) × (o ≡ some (some p)) × (member p level ≡ true)
has_parent_in-some level none h = cc
has_parent_in-some level (some none) h = cc
has_parent_in-some level (some (some p)) h = (p, refl, h)

pub children_of-member :
    (level : List Uuid) (rows : Map FocusObjectRow) (c : Uuid)
    → member c (children_of level rows) ≡ true
    → (p : Uuid) × (hierarchy rows c ≡ some (some p)) × (member p level ≡ true)
unfolding children_of
children_of-member level rows c m =
    has_parent_in-some level (hierarchy rows c)
      (ground (arith, member-keep_if c (λ k. has_parent_in level (hierarchy rows k)) (keys rows)))

module _ {ℓ} {V : Type ℓ} where
  pub lookup-erase_all :
      (x : ℕ) (ds : List ℕ) (m : Map V)
      → lookup x (erase_all ds m) ≡ (if member x ds then none else lookup x m)
  unfolding erase_all
  lookup-erase_all x [] m = refl
  lookup-erase_all x (d ∷ ds) m =
      ground (arith, lookup-erase_all x ds (erase d m), lookup-erase x d m)

  length-erase_all : (ds : List ℕ) (m : Map V) → length (erase_all ds m) ≤ length m
  unfolding erase_all
  length-erase_all [] m = omega arith
  length-erase_all (d ∷ ds) m = omega (arith, length-erase_all ds (erase d m), length-erase-le d m)

  pub length-erase_all-lt :
      (d : ℕ) (ds : List ℕ) (m : Map V)
      → ¬ (lookup d m ≡ none)
      → suc (length (erase_all (d ∷ ds) m)) ≤ length m
  unfolding erase_all
  length-erase_all-lt d ds m h =
      omega (arith, length-erase_all ds (erase d m), length-erase-lt d m h)

pub hierarchy-erase_all :
    (x : Uuid) (ds : List Uuid) (rows : Map FocusObjectRow)
    → hierarchy (erase_all ds rows) x ≡ (if member x ds then none else hierarchy rows x)
hierarchy-erase_all x ds rows = ground (arith, lookup-erase_all x ds rows)
