-- ===== src/Postgres/Pages.antt =====
-- Pages of what is made of rows, and the rows that a condition leaves.
pub mod Answers
use focus_flow.Common.{
  Bool-cases, inl, inr, ℕ, zero, suc, ◌≤◌, All, Map, ◌≡◌, refl, sym, ◌∙◌, ap, fun_ext, String, Bool,
  Option, none, some, List, [], ◌∷◌, ◌++◌, map, arith, ltb, length, take, get_last?, DistinctKeys,
}
use focus_flow.Storage.{Outcome, ok}
use focus_flow.Model.{Uuid, Page}
use focus_flow.Fake.Listing.{follow_pages}
use focus_flow.Postgres.{last_id, page_from_items}
use focus_flow.Postgres.Statements.{rows_where}

module _ {T U : Type 0} (f : T → U) where
  abbrev pub map_page : Page T → Page U
  map_page page = record {
    items = map f page.items;
    count = page.count;
    next_cursor = page.next_cursor;
    has_more = page.has_more;
  }

  length-map : (xs : List T) → length (map f xs) ≡ length xs
  length-map [] = refl
  length-map (x ∷ xs) = ap suc (length-map xs)

  take-map : (n : ℕ) (xs : List T) → take n (map f xs) ≡ map f (take n xs)
  take-map zero xs = refl
  take-map (suc n) [] = refl
  take-map (suc n) (x ∷ xs) = ap (◌∷◌ (f x)) (take-map n xs)

  map-append : (xs ys : List T) → map f (xs ++ ys) ≡ map f xs ++ map f ys
  map-append [] ys = refl
  map-append (x ∷ xs) ys = ap (◌∷◌ (f x)) (map-append xs ys)

  module _ (key : T → Uuid) (own : U → Uuid) (same : (x : T) → own (f x) ≡ key x)
      (id_string : Uuid → String) where
    last_id-map :
        (xs : List T)
        → last_id own id_string (get_last? (map f xs)) ≡ last_id key id_string (get_last? xs)
    last_id-map [] = refl
    last_id-map (x ∷ []) = rw (same x) refl
    last_id-map (x ∷ y ∷ xs) = last_id-map (y ∷ xs)

    -- A page of what is made of the rows is made of the page of the rows.
    pub page_from_items-map :
        (xs : List T) (n : ℕ)
        → page_from_items own id_string (map f xs) n ≡ map_page (page_from_items key id_string xs n)
    page_from_items-map xs n = rw (length-map xs) (elim (Bool-cases (ltb n (length xs))) [
      | inl more ↦ rw (more, take-map n xs, length-map (take n xs), last_id-map (take n xs)) refl
      | inr all ↦ rw all refl
    ])

  map-next :
      (next : Option String) (behind : String → List T)
      → map f (elim next [ none ↦ [] | some c ↦ behind c ])
        ≡ elim next [ none ↦ [] | some c ↦ map f (behind c) ]
  map-next none behind = refl
  map-next (some c) behind = refl

  pub follow_pages-map :
      (call : Option String → Outcome (Page U)) (pages : Option String → Page T)
      → ((at : Option String) → call at ≡ ok (map_page (pages at)))
      → (calls : ℕ) (at : Option String)
      → follow_pages call calls at ≡ map f (follow_pages (λ at. ok (pages at)) calls at)
  unfolding follow_pages
  follow_pages-map call pages made zero at = refl
  follow_pages-map call pages made (suc calls) at =
      let page = pages at in
      rw (made at, follow_pages)
        (ap
            (λ (next : String → List U).
              map f page.items ++ elim page.next_cursor [ none ↦ [] | some c ↦ next c ])
            (fun_ext (λ c. follow_pages-map call pages made calls (some c)))
          ∙ sym (
              map-append page.items _
              ∙ ap (◌++◌ (map f page.items)) (
                  map-next page.next_cursor
                    λ c. follow_pages (λ at. ok (pages at)) calls (some c))))

-- No two rows of the table have the same identifier.
abbrev pub OneEach : {V : Type 0} → (V → Uuid) → Map V → Type 0
OneEach key table = DistinctKeys (λ entry. key entry.1) table

module _ {V : Type 0} (key : V → Uuid) (p : V → Bool) where
  All-rows_where :
      (P : V → Type 0) (table : Map V) → All (λ entry. P entry.1) table → All P (rows_where p table)
  unfolding rows_where
  All-rows_where P [] h = tt
  All-rows_where P ((k, row) ∷ rows) h =
      let rest = All-rows_where P rows h.1 in
      elim (Bool-cases (p row)) [ inl kept ↦ rw kept (h.0, rest) | inr left ↦ rw left rest ]

  pub rows_where-DistinctKeys :
      (table : Map V) → OneEach key table → DistinctKeys key (rows_where p table)
  unfolding rows_where
  rows_where-DistinctKeys [] h = tt
  rows_where-DistinctKeys ((k, row) ∷ rows) h =
      let rest = rows_where-DistinctKeys rows h.1 in
      elim (Bool-cases (p row)) [
        | inl kept ↦ rw kept (All-rows_where (λ other. ¬ (key other ≡ key row)) rows h.0, rest)
        | inr left ↦ rw left rest
      ]

  pub length-rows_where : (table : Map V) → length (rows_where p table) ≤ length table
  unfolding rows_where
  length-rows_where [] = omega arith
  length-rows_where ((k, row) ∷ rows) = ground (arith, length-rows_where rows)
