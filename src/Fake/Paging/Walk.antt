-- ===== src/Fake/Paging/Walk.antt =====
-- A client that follows the cursors from page to page.
use mathlib.Core.List.{append-nil, append_assoc}
use focus_flow.Common.{
  subst, drop-append, take_whole, get_last?-append, split_last, All_middle, ℕ, zero, suc, ◌+◌, ◌-◌,
  ◌≤◌, ◌<◌, ◌≡◌, refl, sym, ◌∙◌, ap, inl, inr, String, true, Option, none, some, List, [], ◌∷◌,
  ◌++◌, arith, length, length-append, take, drop, get_last?, take-append-drop, length-take,
  length-drop, All, ltb, str_eq_iff, Bool-cases,
}
use focus_flow.Model.{PageRequest}
use focus_flow.Model.Int.{ℤ, pos, negsuc}
use focus_flow.Fake.Paging.{
  page_limit, find_start, start_index, end_index, next_cursor, page_items, PageResult,
}

-- The limit that a page is cut with is between 1 and 100.
pub page_limit_bounds : (n : ℤ) → (1 ≤ page_limit n) × (page_limit n ≤ 100)
unfolding page_limit
page_limit_bounds (pos n) = ground arith
page_limit_bounds (negsuc n) = ground arith

-- The slice of a page that starts at `s`, with `r` items left.
cut_more : (s r l : ℕ) → ltb (end_index s l (s + r)) (s + r) ≡ ltb l r
cut_more s r l = ground arith

cut_items {ℓ} :
    {T : Type ℓ} (s l : ℕ) (rest : List T)
    → take (end_index s l (s + length rest) - s) rest ≡ take l rest
cut_items s l rest = elim (Bool-cases (ltb (s + length rest) (s + l))) [
  | inl past ↦
      let whole : end_index s l (s + length rest) - s ≡ length rest = ground arith in
      ap (λ n. take n rest) whole
      ∙ take_whole rest (length rest) (omega arith)
      ∙ sym (take_whole rest l (ground arith))
  | inr within ↦
      let part : end_index s l (s + length rest) - s ≡ l = ground arith in
      ap (λ n. take n rest) part
]

regroup {ℓ} :
    {T : Type ℓ} (pre shown rest : List T) (x : T)
    → pre ++ (shown ++ x ∷ []) ++ rest ≡ pre ++ shown ++ x ∷ rest
regroup pre shown rest x = simp append_assoc

module _ {ℓ} {T : Type ℓ} (cursor : T → String) where
  -- No two items have the same cursor.
  abbrev pub Unique : List T → Type 0
  Unique [] = Unit
  Unique (x ∷ xs) = All (λ y. ¬ (cursor y ≡ cursor x)) xs × Unique xs

  -- What a client collects that follows `next_cursor` from page to page, with at most so many calls.
  unfoldable pub pages : ℕ → List T → ℤ → Option String → List T
  pages zero items limit at = []
  pages (suc calls) items limit at =
      let page = page_items items (record { limit = limit; cursor = at }) cursor in
      page.items
      ++ elim page.next_cursor [ none ↦ [] | some next ↦ pages calls items limit (some next) ]

  Unique-before :
      (xs : List T) (x : T) (ys : List T)
      → Unique (xs ++ x ∷ ys)
      → All (λ y. ¬ (cursor y ≡ cursor x)) xs
  Unique-before [] x ys u = tt
  Unique-before (z ∷ xs) x ys u = (λ e. All_middle _ xs x ys u.0 (sym e), Unique-before xs x ys u.1)

  find_start_hit :
      (i : ℕ) (xs : List T) (x : T) (ys : List T)
      → All (λ y. ¬ (cursor y ≡ cursor x)) xs
      → find_start cursor (cursor x) i (xs ++ x ∷ ys) ≡ i + length xs + 1
  unfolding find_start
  find_start_hit i [] x ys h = ground (arith, str_eq_iff (cursor x) (cursor x))
  find_start_hit i (z ∷ xs) x ys h =
      ground (arith, str_eq_iff (cursor z) (cursor x), find_start_hit (i + 1) xs x ys h.1)

  -- The page that starts behind `pre`.
  abbrev page_behind : ℕ → List T → PageResult T
  page_behind limit rest = record {
    items = take limit rest;
    has_more = ltb limit (length rest);
    next_cursor = next_cursor cursor (ltb limit (length rest)) (get_last? (take limit rest));
  }

  page_at :
      (pre rest : List T) (request : PageRequest)
      → start_index cursor request.cursor (pre ++ rest) ≡ length pre
      → page_items (pre ++ rest) request cursor ≡ page_behind (page_limit request.limit) rest
  unfolding page_items
  page_at pre rest request at =
      rw (at, length-append pre rest, drop-append pre rest)
        λ i. record {
          items = cut_items (length pre) (page_limit request.limit) rest i;
          has_more = cut_more (length pre) (length rest) (page_limit request.limit) i;
          next_cursor =
              next_cursor cursor (cut_more (length pre) (length rest) (page_limit request.limit) i)
                (get_last? (cut_items (length pre) (page_limit request.limit) rest i));
        }

  -- The cursor of the last item of a page leads behind that page.
  start_behind :
      (pre shown rest : List T) (x : T)
      → Unique (pre ++ (shown ++ x ∷ []) ++ rest)
      → start_index cursor (some (cursor x)) (pre ++ (shown ++ x ∷ []) ++ rest)
        ≡ length (pre ++ (shown ++ x ∷ []))
  unfolding start_index
  start_behind pre shown rest x u =
      let e = regroup pre shown rest x in
      rw e (
        find_start_hit 0 (pre ++ shown) x rest
          (Unique-before (pre ++ shown) x rest (subst Unique e u))
        ∙ omega (
          arith,
          length-append pre shown,
          length-append pre (shown ++ x ∷ []),
          length-append shown (x ∷ []),
        ))

  -- One page that is not the last, given that the next calls list the rest.
  follow :
      (calls limit : ℕ) (next : List T → Option String → List T) (pre rest : List T)
      → 1 ≤ limit
      → Unique (pre ++ rest)
      → ltb limit (length rest) ≡ true
      → length rest < suc calls
      → ((pre' rest' : List T) (at : Option String)
          → Unique (pre' ++ rest')
          → start_index cursor at (pre' ++ rest') ≡ length pre'
          → length rest' < calls
          → next (pre' ++ rest') at ≡ rest')
      → take limit rest
          ++ elim (next_cursor cursor (ltb limit (length rest)) (get_last? (take limit rest))) [
            | none ↦ []
            | some c ↦ next (pre ++ rest) (some c)
          ]
        ≡ rest
  follow calls limit next pre rest positive u more few ih =
      let (init, x, e) = split_last (take limit rest) (ground (arith, length-take limit rest)) in
      let last = ap get_last? e ∙ get_last?-append init x in
      let whole =
        ap (◌++◌ pre) (sym (take-append-drop limit rest) ∙ ap (λ t. t ++ drop limit rest) e)
        ∙ sym (append_assoc pre (init ++ x ∷ []) (drop limit rest)) in
      let u' = subst Unique whole u in
      rw (more, last)
        (ap (◌++◌ (take limit rest)) (
            ap (λ t. next t (some (cursor x))) whole
            ∙ ih (pre ++ (init ++ x ∷ [])) (drop limit rest) (some (cursor x)) u'
                (start_behind pre init (drop limit rest) x u')
                (ground (arith, length-drop limit rest)))
          ∙ take-append-drop limit rest)

  -- From a start behind `pre` the pages list the rest.
  pages_rest :
      (calls : ℕ) (limit : ℤ) (pre rest : List T) (at : Option String)
      → Unique (pre ++ rest)
      → start_index cursor at (pre ++ rest) ≡ length pre
      → length rest < calls
      → pages calls (pre ++ rest) limit at ≡ rest
  unfolding pages
  pages_rest zero limit pre rest at u start few = absurd (omega arith)
  pages_rest (suc calls) limit pre rest at u start few =
      rw (page_at pre rest (record { limit = limit; cursor = at }) start)
        (elim (Bool-cases (ltb (page_limit limit) (length rest))) [
          | inr last ↦ rw last (append-nil _ ∙ take_whole rest (page_limit limit) (ground arith))
          | inl more ↦
              follow calls (page_limit limit) (λ items c. pages calls items limit c) pre rest
                (page_limit_bounds limit).0 u more few (pages_rest calls limit)
        ])

  -- A client that follows the cursors of pageItems from the first page gets every item once, in
  -- order, whatever limit it asks for, if it may make more calls than there are items and no two
  -- items have the same cursor.
  pub pages_all :
      (items : List T) (limit : ℤ) (calls : ℕ)
      → Unique items
      → length items < calls
      → pages calls items limit none ≡ items
  unfolding start_index
  pages_all items limit calls u enough = pages_rest calls limit [] items none u refl enough
