-- ===== src/Postgres/Descent/Cascade.antt =====
-- What the cascade removes, and that it ends.
use focus_flow.Common.{
  ℕ, zero, suc, ◌≤◌, ◌≡◌, refl, ap, ◌⊎◌, inl, inr, true, false, none, some, Option, List, [], ◌∷◌,
  ◌++◌, arith, Map, lookup, length, member, Marks, Bool-cases, member-append,
}
use focus_flow.Forest.{Below, self, under}
use focus_flow.Forest.Order.{Below-trans}
use focus_flow.Forest.Change.{Below-mono}
use focus_flow.Model.{Uuid}
use focus_flow.Postgres.{FocusObjectRow}
use focus_flow.Postgres.Descent.{hierarchy, children_of, erase_all, prepend, cascade}
use focus_flow.Postgres.Descent.Members.{
  member-children_of, children_of-member, length-erase_all-lt, hierarchy-erase_all,
}

-- An object that is there and lies below a member of the level.
abbrev pub Hit : Map FocusObjectRow → List Uuid → Uuid → Type 0
Hit rows level x = (m : Uuid) × (member m level ≡ true) × Below (hierarchy rows) m x

module _ (rows : Map FocusObjectRow) (level : List Uuid) where
  abbrev rest : Map FocusObjectRow
  rest = erase_all level rows

  rest-sub : (x : Uuid) (q : Option Uuid) → hierarchy rest x ≡ some q → hierarchy rows x ≡ some q
  rest-sub x q h = ground (arith, hierarchy-erase_all x level rows)

  -- What lies below the level is in it, or below a child of it that is left.
  Below-next :
      (m x : Uuid)
      → member m level ≡ true
      → Below (hierarchy rows) m x
      → (member x level ≡ true) ⊎ Hit rest (children_of level rest) x
  Below-next m x l self = inl l
  Below-next m x l (under p h k) = elim (Bool-cases (member x level)) [
    | inl here ↦ inl here
    | inr left ↦ elim (Below-next m p l k) [
      | inl top ↦ inr (x, member-children_of level rest x p (kept left h) top, self)
      | inr (c, n, b) ↦ inr (c, n, under p (kept left h) b)
    ]
  ]
    where
      kept :
          member x level ≡ false
          → hierarchy rows x ≡ some (some p)
          → hierarchy rest x ≡ some (some p)
      kept left h = ground (arith, hierarchy-erase_all x level rows)

  Hit-up : (x : Uuid) → Hit rest (children_of level rest) x → Hit rows level x
  Hit-up x (c, n, b) =
      let (p, h, l) = children_of-member level rest c n in
      (p, l, Below-trans (under p (rest-sub c (some p) h) self) (Below-mono rest-sub b))

  Marks-next :
      (ds : List Uuid)
      → Marks (Hit rest (children_of level rest)) ds
      → Marks (Hit rows level) (level ++ ds)
  Marks-next ds marks x = elim (Bool-cases (member x level)) [
    | inl here ↦ inl ((x, here, self), ground (arith, member-append x level ds))
    | inr left ↦ elim (marks x) [
      | inl (hit, n) ↦ inl (Hit-up x hit, ground (arith, member-append x level ds))
      | inr (out, n) ↦ inr (missed left out, ground (arith, member-append x level ds))
    ]
  ]
    where
      missed : member x level ≡ false → ¬ Hit rest (children_of level rest) x → ¬ Hit rows level x
      missed left out (m, l, b) = elim (Below-next m x l b) [ inl here ↦ cc | inr hit ↦ out hit ]

abbrev pub Ends : Map FocusObjectRow → List Uuid → Option (List Uuid) → Type 0
Ends rows level result = (ds : List Uuid) × (result ≡ some ds) × Marks (Hit rows level) ds

-- With fuel for as many levels as there are rows the cascade ends, cycles or not: every level
-- removes a row. It removes what lies below the level, each once or more.
pub cascade-Ends :
    (fuel : ℕ) (level : List Uuid) (rows : Map FocusObjectRow)
    → ((m : Uuid) → member m level ≡ true → ¬ (lookup m rows ≡ none))
    → length rows ≤ fuel
    → Ends rows level (cascade fuel level rows)
unfolding cascade
cascade-Ends fuel [] rows there le = ([], refl, λ x. inr (λ (m, l, b). cc, refl))
cascade-Ends zero (x ∷ level) rows there le =
    absurd (omega (arith, length-erase_all-lt x level rows (there x (ground arith))))
cascade-Ends (suc fuel) (x ∷ level) rows there le =
    let (ds, e, marks) =
      cascade-Ends fuel (children_of (x ∷ level) (rest rows (x ∷ level))) (rest rows (x ∷ level))
        next_there (omega (arith, length-erase_all-lt x level rows (there x (ground arith)))) in
    ((x ∷ level) ++ ds, ap (prepend (x ∷ level)) e, Marks-next rows (x ∷ level) ds marks)
  where
    next_there :
        (m : Uuid)
        → member m (children_of (x ∷ level) (rest rows (x ∷ level))) ≡ true
        → ¬ (lookup m (rest rows (x ∷ level)) ≡ none)
    next_there m n gone =
        let (p, h, l) = children_of-member (x ∷ level) (rest rows (x ∷ level)) m n in ground arith
