-- ===== src/Fake/Paging.antt =====
-- backend/internal/storage/fake/store.go: `pageItems`.
pub mod Walk
use focus_flow.Common.{
  ℕ, ◌+◌, ◌-◌, String, Bool, true, false, Option, none, some, List, [], ◌∷◌, length, take, drop,
  get_last?, ltb, ◌==◌, ◌||◌, if◌then◌else◌, str_eq,
}
use focus_flow.Model.{PageRequest}
use focus_flow.Model.Int.{ℤ, pos, negsuc}

pub record PageResult {ℓ} (T : Type ℓ) : Type ℓ where
  pub items : List T
  pub next_cursor : Option String
  pub has_more : Bool

-- `if limit <= 0 || limit > 100 { limit = 50 }`
unfoldable pub page_limit : ℤ → ℕ
page_limit (pos n) = if n == 0 || ltb 100 n then 50 else n
page_limit (negsuc n) = 50

-- `end := start + limit; if end > len(items) { end = len(items) }`
abbrev pub end_index : ℕ → ℕ → ℕ → ℕ
end_index start limit n = if ltb n (start + limit) then n else start + limit

module _ {ℓ} {T : Type ℓ} where
  -- The loop over `items`: one past the first item with the cursor, and 0 if there is none; `i`
  -- is the loop's index.
  unfoldable pub find_start : (T → String) → String → ℕ → List T → ℕ
  find_start cursor wanted i [] = 0
  find_start cursor wanted i (x ∷ xs) =
      if str_eq (cursor x) wanted then i + 1 else find_start cursor wanted (i + 1) xs

  unfoldable pub start_index : (T → String) → Option String → List T → ℕ
  unfolding find_start
  start_index cursor none items = 0
  start_index cursor (some wanted) items = find_start cursor wanted 0 items

  -- `if result.hasMore && len(out) > 0 { next := cursor(out[len(out)-1]) }`
  abbrev pub next_cursor : (T → String) → Bool → Option T → Option String
  next_cursor cursor true (some last) = some (cursor last)
  next_cursor cursor true none = none
  next_cursor cursor false last = none

  unfoldable pub page_items : List T → PageRequest → (T → String) → PageResult T
  unfolding page_limit start_index
  page_items items request cursor =
      let start = start_index cursor request.cursor items in
      let stop = end_index start (page_limit request.limit) (length items) in
      let out = take (stop - start) (drop start items) in
      let more = ltb stop (length items) in
      record { items = out; has_more = more; next_cursor = next_cursor cursor more (get_last? out) }
