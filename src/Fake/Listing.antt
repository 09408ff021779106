-- ===== src/Fake/Listing.antt =====
-- The listings of the store in memory, as a client sees them that follows the cursors.
pub mod Flows
pub mod Goals
use focus_flow.Common.{
  ◌↔◌, Map, Distinct, lookup, Any, Any-sort, collect_if, Any-collect_if, collect_if-Any, Source,
  collect_if-DistinctKeys, length-collect_if-le, ℕ, zero, suc, ◌≤◌, ◌<◌, ◌≡◌, refl, sym, ◌∙◌, ap,
  String, Bool, true, false, Option, none, some, List, [], ◌∷◌, ◌++◌, arith, length, str_lt, ltb,
  ◌==◌, All, sort_slice, insert_sorted, by_key, Rising, DistinctKeys, sort-Rising, sort_of-Rising,
  length-sort, Rising-DistinctKeys, fun_ext, if◌then◌else◌,
}
use focus_flow.Storage.{Outcome, ok, err, overflow}
use focus_flow.Model.{Uuid, Page, PageRequest}
use focus_flow.Model.Int.{ℤ}
use focus_flow.Fake.Paging.{page_items}
use focus_flow.Fake.Paging.Walk.{Unique, pages, pages_all}
use focus_flow.Fake.Aggregate.{to_page}

-- What the listings rely on of `uuid.UUID.String`: the texts are ordered as the identifiers are.
pub record UuidText (id_string : Uuid → String) : Type 0 where
  pub order : (a b : Uuid) → str_lt (id_string a) (id_string b) ≡ ltb a b

-- A client that asks for pages until there is no next cursor, with at most so many calls.
unfoldable pub follow_pages {ℓ} :
    {T : Type ℓ} → (Option String → Outcome (Page T)) → ℕ → Option String → List T
follow_pages call zero at = []
follow_pages call (suc calls) at = elim (call at) [
  | ok page ↦
      page.items
      ++ elim page.next_cursor [ none ↦ [] | some next ↦ follow_pages call calls (some next) ]
  | err e ↦ []
  | overflow ↦ []
]

module _ (id_string : Uuid → String) (text : UuidText id_string) where
  id_string-injective : (a b : Uuid) → id_string a ≡ id_string b → a ≡ b
  id_string-injective a b e =
      let below : ltb a b ≡ ltb a a =
        sym (text.order a b) ∙ ap (str_lt (id_string a)) (sym e) ∙ text.order a a in
      let above : ltb b a ≡ ltb a a =
        sym (text.order b a) ∙ ap (λ s. str_lt s (id_string a)) (sym e) ∙ text.order a a in
      ground arith

  module _ {T : Type 0} (key : T → Uuid) where
    Unique-cursors : (xs : List T) → DistinctKeys key xs → Unique (λ x. id_string (key x)) xs
    Unique-cursors [] d = tt
    Unique-cursors (x ∷ xs) d = (go xs d.0, Unique-cursors xs d.1)
      where
        go :
            (ys : List T)
            → All (λ y. ¬ (key y ≡ key x)) ys
            → All (λ y. ¬ (id_string (key y) ≡ id_string (key x))) ys
        go [] h = tt
        go (y ∷ ys) h = ((λ e. h.0 (id_string-injective (key y) (key x) e)), go ys h.1)

    -- The order by text is the order by number.
    pub sort_by_text :
        (xs : List T)
        → sort_slice (λ a b. str_lt (id_string (key a)) (id_string (key b))) xs
          ≡ sort_slice (by_key key) xs
    sort_by_text xs =
        ap (λ less. sort_slice less xs) (fun_ext (λ a. fun_ext (λ b. text.order (key a) (key b))))

    -- To sort by text a second time changes nothing.
    pub sort_again :
        (xs : List T)
        → DistinctKeys key xs
        → let by_text = sort_slice (λ a b. str_lt (id_string (key a)) (id_string (key b))) in
          by_text (by_text xs) ≡ by_text xs
    sort_again xs distinct = rw (sort_by_text xs) (
        sort_by_text (sort_slice (by_key key) xs)
        ∙ sort_of-Rising key (sort_slice (by_key key) xs) (sort-Rising key xs distinct))

    follow_pages-eq-pages :
        (call : Option String → Outcome (Page T)) (items : List T) (limit : ℤ)
        → ((at : Option String)
            → call at
              ≡ ok (
                  to_page (
                    page_items items
                      (record { limit = limit; cursor = at })
                      (λ x. id_string (key x)))))
        → (calls : ℕ) (at : Option String)
        → follow_pages call calls at ≡ pages (λ x. id_string (key x)) calls items limit at
    unfolding follow_pages pages
    follow_pages-eq-pages call items limit answers zero at = refl
    follow_pages-eq-pages call items limit answers (suc calls) at =
        let page =
          page_items items (record { limit = limit; cursor = at }) (λ x. id_string (key x)) in
        rw (answers at, follow_pages)
          (ap
            (λ (next : String → List T).
              page.items ++ elim page.next_cursor [ none ↦ [] | some c ↦ next c ])
            (fun_ext (λ c. follow_pages-eq-pages call items limit answers calls (some c))))

    -- Following the cursors of a sorted listing gives its items in the order of their identifiers.
    pub follow_pages-sorted :
        (call : Option String → Outcome (Page T)) (items : List T) (limit : ℤ)
        → ((at : Option String)
            → call at
              ≡ ok (
                  to_page (
                    page_items
                      (sort_slice (λ a b. str_lt (id_string (key a)) (id_string (key b))) items)
                      (record { limit = limit; cursor = at })
                      (λ x. id_string (key x)))))
        → DistinctKeys key items
        → (calls : ℕ) → length items < calls
        → follow_pages call calls none ≡ sort_slice (by_key key) items
    follow_pages-sorted call items limit answers distinct calls enough =
        let sorted = sort_slice (by_key key) items in
        let rising = sort-Rising key items distinct in
        follow_pages-eq-pages call sorted limit
          (λ at.
            answers at
            ∙ ap
                (λ its. ok (
                  to_page (
                    page_items its (record { limit = limit; cursor = at })
                      (λ x. id_string (key x)))))
                (sort_by_text items))
          calls none
        ∙ pages_all (λ x. id_string (key x)) sorted limit calls
            (Unique-cursors sorted (Rising-DistinctKeys key sorted rising))
            (omega (arith, length-sort (by_key key) items))

    -- A listing of what a loop collects from a map shows exactly that, in rising order.
    pub listing :
        {V : Type 0} (p : V → Bool) (h : V → T) (m : Map V)
        → Distinct m
        → ((k : ℕ) (w : V) → lookup k m ≡ some w → key (h w) ≡ k)
        → (call : Option String → Outcome (Page T)) (limit : ℤ)
        → ((at : Option String)
            → call at
              ≡ ok (
                  to_page (
                    page_items
                      (sort_slice
                        (λ a b. str_lt (id_string (key a)) (id_string (key b)))
                        (collect_if p h m))
                      (record { limit = limit; cursor = at })
                      (λ x. id_string (key x)))))
        → (calls : ℕ) → length m < calls
        → let listed = follow_pages call calls none in
          Rising key listed
          × ((y : ℕ) → Any (λ t. key t ≡ y) listed ↔ Source p h (λ t. key t ≡ y) m)
    listing p h m distinct keys call limit answers calls enough =
        let items = collect_if p h m in
        let once = collect_if-DistinctKeys p h key m distinct keys in
        rw
          (follow_pages-sorted call items limit answers once calls
            (omega (arith, length-collect_if-le p h m)))
          (
            sort-Rising key items once,
            λ y.
                let sorted = Any-sort (by_key key) (λ t. key t ≡ y) items in
                (
                  λ a. Any-collect_if p h (λ t. key t ≡ y) m distinct (sorted.0 a),
                  λ (k, w, found, test, q).
                      sorted.1 (collect_if-Any p h (λ t. key t ≡ y) m k w found test q),
                ),
          )
