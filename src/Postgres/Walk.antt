-- ===== src/Postgres/Walk.antt =====
-- Pages of the PostgreSQL store, one after the other.
use focus_flow.Common.{
  ℕ, zero, suc, ◌+◌, ◌≤◌, ◌<◌, ◌≡◌, refl, sym, ◌∙◌, ap, subst, inl, inr, String, true, false, ◌||◌,
  Option, none, some, List, [], ◌∷◌, ◌++◌, arith, ltb, ◌==◌, if◌then◌else◌, length, take, drop,
  get_last?, keep_if, keep_if_all, All, Rising, DistinctKeys, sort_slice, by_key, sort-Rising,
  length-sort, take-append-drop, length-take, length-drop, take_whole, get_last?-append, split_last,
  is_empty, Bool-cases,
}
use mathlib.Core.List.{append-nil, append_assoc}
use focus_flow.Storage.{ok}
use focus_flow.Model.{Uuid, Page, PageRequest}
use focus_flow.Model.Int.{ℤ, pos, negsuc}
use focus_flow.Postgres.{page_limit, cursor_uuid, is_after, select_after, page_from_items}
use focus_flow.Fake.Listing.{follow_pages}

-- What the cursors rely on: the text of an identifier is not empty and is read as the identifier.
pub record CursorText (id_string : Uuid → String) (parse : String → Option Uuid) : Type 0 where
  pub full : (id : Uuid) → is_empty (id_string id) ≡ false
  pub read : (id : Uuid) → parse (id_string id) ≡ some id

module _ {T : Type 0} (key : T → Uuid) (id_string : Uuid → String) where
  -- The page of rows that the condition of a listing leaves.
  unfoldable pub list_page : (String → Option Uuid) → List T → PageRequest → Page T
  unfolding page_limit
  list_page parse rows request =
      page_from_items key id_string
        (select_after key (cursor_uuid parse request.cursor) (page_limit request + 1) rows)
        (page_limit request)

page_limit_positive : (request : PageRequest) → 1 ≤ page_limit request
unfolding page_limit
page_limit_positive request = positive request.limit
  where
    positive :
        (n : ℤ) → 1 ≤ (elim n [ pos m ↦ if m == 0 || ltb 100 m then 50 else m | negsuc m ↦ 50 ])
    positive (pos m) = ground arith
    positive (negsuc m) = omega arith

take-take {ℓ} : {A : Type ℓ} (n m : ℕ) (xs : List A) → n ≤ m → take n (take m xs) ≡ take n xs
take-take zero m xs h = refl
take-take (suc n) zero xs h = absurd (omega arith)
take-take (suc n) (suc m) [] h = refl
take-take (suc n) (suc m) (x ∷ xs) h = ap (◌∷◌ x) (take-take n m xs (omega arith))

module _ {T : Type 0} (key : T → Uuid) where
  keep_after :
      (x : T) (ys : List T)
      → All (λ y. key x < key y) ys
      → keep_if (is_after key (some (key x))) ys ≡ ys
  keep_after x [] h = refl
  keep_after x (y ∷ ys) h = ground (arith, keep_after x ys h.1)

  All-end : (P : T → Type 0) (xs : List T) (x : T) (ys : List T) → All P (xs ++ x ∷ ys) → P x
  All-end P [] x ys h = h.0
  All-end P (y ∷ xs) x ys h = All-end P xs x ys h.1

  -- In a rising list, what comes after an item is the rest behind it.
  rest_after :
      (pre : List T) (x : T) (rest : List T)
      → Rising key (pre ++ x ∷ rest)
      → keep_if (is_after key (some (key x))) (pre ++ x ∷ rest) ≡ rest
  rest_after [] x rest r = ground (arith, keep_after x rest r.0)
  rest_after (y ∷ pre) x rest r =
      let below : key y < key x = All-end (λ z. key y < key z) pre x rest r.0 in
      ground (arith, rest_after pre x rest r.1)

  module _ (id_string : Uuid → String) (parse : String → Option Uuid)
      (text : CursorText id_string parse) where
    cursor_read : (x : T) → cursor_uuid parse (some (id_string (key x))) ≡ some (key x)
    cursor_read x = rw (text.full (key x)) (text.read (key x))

    -- What a client goes on with behind a page of `limit` items.
    turn : ℕ → (Option String → List T) → Page T → List T
    turn limit next page =
        page.items ++ elim page.next_cursor [ none ↦ [] | some c ↦ next (some c) ]

    last_page :
        (limit : ℕ) (next : Option String → List T) (rest : List T)
        → length rest ≤ limit
        → turn limit next (page_from_items key id_string (take (limit + 1) rest) limit) ≡ rest
    unfolding turn
    last_page limit next rest few =
        rw (take_whole rest (limit + 1) (omega arith)) (ground (arith, append-nil rest))

    full_page :
        (limit : ℕ) (next : Option String → List T) (rest init : List T) (x : T)
        → limit < length rest
        → take limit rest ≡ init ++ x ∷ []
        → next (some (id_string (key x))) ≡ drop limit rest
        → turn limit next (page_from_items key id_string (take (limit + 1) rest) limit) ≡ rest
    unfolding turn
    full_page limit next rest init x many shown follows =
        let long : ltb limit (length (take (limit + 1) rest)) ≡ true =
          ground (arith, length-take (limit + 1) rest) in
        rw
          (
            long,
            take-take limit (limit + 1) rest (omega arith),
            ap get_last? shown ∙ get_last?-append init x,
            follows,
          )
          (take-append-drop limit rest)

    regroup :
        (pre init : List T) (x : T) (rest : List T)
        → pre ++ ((init ++ x ∷ []) ++ rest) ≡ (pre ++ init) ++ x ∷ rest
    regroup pre init x rest = simp append_assoc

    regroup_shown :
        (pre init : List T) (x : T) (rest : List T)
        → (pre ++ init) ++ x ∷ rest ≡ (pre ++ init ++ x ∷ []) ++ rest
    regroup_shown pre init x rest = simp append_assoc

    -- What the cursor of the last item shown selects.
    selected_behind :
        (pre rest init sorted : List T) (x : T) (n : ℕ)
        → sorted ≡ pre ++ rest
        → Rising key (pre ++ rest)
        → take n rest ≡ init ++ x ∷ []
        → (sorted ≡ (pre ++ init ++ x ∷ []) ++ drop n rest)
          × Rising key ((pre ++ init ++ x ∷ []) ++ drop n rest)
          × (keep_if (is_after key (cursor_uuid parse (some (id_string (key x))))) sorted
              ≡ drop n rest)
    selected_behind pre rest init sorted x n whole r shown =
        let back = drop n rest in
        let split : pre ++ rest ≡ (pre ++ init) ++ x ∷ back =
          ap (◌++◌ pre) (sym (take-append-drop n rest) ∙ ap (λ t. t ++ back) shown)
          ∙ regroup pre init x back in
        let behind = regroup_shown pre init x back in
        (
          whole ∙ split ∙ behind,
          subst (Rising key) (split ∙ behind) r,
          subst (λ c. keep_if (is_after key c) sorted ≡ back) (sym (cursor_read x))
              (rw (whole, split) (rest_after (pre ++ init) x back (subst (Rising key) split r))),
        )

    walk :
        (rows : List T) (limit : ℤ) (calls : ℕ) (pre rest : List T) (at : Option String)
        → sort_slice (by_key key) rows ≡ pre ++ rest
        → Rising key (pre ++ rest)
        → keep_if (is_after key (cursor_uuid parse at)) (sort_slice (by_key key) rows) ≡ rest
        → length rest < calls
        → follow_pages
            (λ at. ok (list_page key id_string parse rows (record { limit = limit; cursor = at })))
            calls
            at
          ≡ rest
    unfolding follow_pages list_page turn page_limit
    walk rows limit zero pre rest at whole r selected few = absurd (omega arith)
    walk rows limit (suc calls) pre rest at whole r selected few =
        let request : PageRequest = record { limit = limit; cursor = at } in
        let n = page_limit request in
        let positive = page_limit_positive request in
        let next =
          follow_pages
            (λ at. ok (list_page key id_string parse rows (record { limit = limit; cursor = at })))
            calls in
        let first : List T → List T =
          λ sel. turn n next (page_from_items key id_string (take (n + 1) sel) n) in
        elim (Bool-cases (ltb n (length rest))) [
          | inr all ↦ ap first selected ∙ last_page n next rest (ground arith)
          | inl more ↦
              let (init, x, shown) =
                split_last (take n rest) (ground (arith, length-take n rest)) in
              let (whole', r', selected') =
                selected_behind pre rest init (sort_slice (by_key key) rows) x n whole r shown in
              ap first selected
              ∙ full_page n next rest init x (ground arith) shown (
                  walk rows limit calls (pre ++ init ++ x ∷ []) (drop n rest)
                    (some (id_string (key x))) whole' r' selected'
                    (ground (arith, length-drop n rest)))
        ]

    pub follow_pages-list_page :
        (rows : List T) (limit : ℤ) (calls : ℕ)
        → DistinctKeys key rows
        → length rows < calls
        → follow_pages
            (λ at. ok (list_page key id_string parse rows (record { limit = limit; cursor = at })))
            calls
            none
          ≡ sort_slice (by_key key) rows
    follow_pages-list_page rows limit calls distinct enough =
        walk rows limit calls [] (sort_slice (by_key key) rows) none refl
          (sort-Rising key rows distinct) (keep_if_all _ _ (λ x. refl))
          (omega (arith, length-sort (by_key key) rows))
