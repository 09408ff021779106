-- ===== src/Postgres/Listings.antt =====
-- ListFocusGoals, ListFlows and ListFocusChildren of the PostgreSQL store, to a client that follows
-- the cursors.
use focus_flow.Common.{
  ℕ, ◌<◌, ◌≡◌, refl, ◌∙◌, ap, String, Bool, not, Option, none, some, List, map, arith, ◌==◌, length,
  lookup, is_some, DistinctKeys, sort_slice, by_key,
}
use focus_flow.Storage.{Outcome, ok}
use focus_flow.Model.{Uuid, Goal, fields, Page, PageRequest}
use focus_flow.Model.Int.{ℤ}
use focus_flow.Fake.Focuses.Created.{alone}
use focus_flow.Fake.Listing.{follow_pages}
use focus_flow.Postgres.{FocusObjectRow}
use focus_flow.Postgres.Rows.{FocusGoalRow, goal_from_row}
use focus_flow.Postgres.Pages.{
  map_page, follow_pages-map, OneEach, rows_where-DistinctKeys, length-rows_where,
}
use focus_flow.Postgres.Walk.{CursorText, list_page, follow_pages-list_page}
use focus_flow.Postgres.Sql.{Db}
use focus_flow.Postgres.Sql.Quiet.{Quiet}
use focus_flow.Postgres.Statements.{rows_where, is_id}
use focus_flow.Postgres.GoalStore.{list_focus_goals}
use focus_flow.Postgres.FocusStore.{list_flows, list_focus_children}
use focus_flow.Postgres.Pages.Answers.{
  whole, bare, scan_links-id, goals-answer, flows-answer, children-answer,
}

module _ (id_string : Uuid → String) (parse : String → Option Uuid)
    (text : CursorText id_string parse) where
  -- To follow the cursors of a method that answers with the pages of what is made of some rows.
  follow_pages-made :
      {T U : Type 0} (f : T → U) (key : T → Uuid) (own : U → Uuid)
      → ((x : T) → own (f x) ≡ key x)
      → (rows : List T) (limit : ℤ) (call : Option String → Outcome (Page U))
      → ((at : Option String)
          → call at
            ≡ ok (
                map_page f
                  (list_page key id_string parse rows (record { limit = limit; cursor = at }))))
      → (calls : ℕ) → DistinctKeys key rows
      → length rows < calls
      → follow_pages call calls none ≡ map f (sort_slice (by_key key) rows)
  follow_pages-made f key own same rows limit call answers calls distinct enough =
      follow_pages-map f call _ answers calls none
      ∙ ap (map f)
          (follow_pages-list_page key id_string parse text rows limit calls distinct enough)

  module _ (db : Db) (quiet : Quiet db) (user : Uuid) where
    -- What the client gets.
    abbrev pub ListsAll : Uuid → ℤ → ℕ → Type 0
    ListsAll focus limit calls =
        let page : Option String → PageRequest = λ at. record { limit = limit; cursor = at } in
        (follow_pages (λ at. (list_flows id_string parse user (page at) (alone focus) db).0) calls
            none
          ≡ map bare (
              sort_slice (by_key λ row. row.id)
                (rows_where (λ row. not (is_some row.parent_id)) db.tables.focus_object)))
        × (follow_pages
              (λ at. (list_focus_children id_string parse user focus (page at) (alone focus) db).0)
              calls none
            ≡ map bare (
                sort_slice (by_key λ row. row.id)
                  (rows_where (λ row. is_id focus row.parent_id) db.tables.focus_object)))
        × (follow_pages (λ at. (list_focus_goals id_string parse user focus (page at) db).0) calls
              none
            ≡ map (λ row. whole db.tables (goal_from_row row))
                (sort_slice (by_key λ row. row.id)
                  (rows_where (λ row. row.focus_object_id == focus) db.tables.focus_goal)))

    -- With no faults, a client that follows the cursors of ListFlows, ListFocusChildren or
    -- ListFocusGoals of the PostgreSQL store, with one call more than the table has rows and
    -- whatever limit, gets the focuses without a parent, those whose parent is the given focus,
    -- and the goals that it owns as goalAggregate completes them, each once and in rising order
    -- of the identifiers, if the focus is there, the focuses are asked for without goals and
    -- children, no two rows of a table have the same identifier, and the text of an identifier is
    -- not empty and is parsed as that identifier.
    pub follow_pages-listings :
        (focus : Uuid) (row : FocusObjectRow) (limit : ℤ) (calls : ℕ)
        → lookup focus db.tables.focus_object ≡ some row
        → OneEach (λ row. row.id) db.tables.focus_object
        → OneEach (λ row. row.id) db.tables.focus_goal
        → length db.tables.focus_object < calls
        → length db.tables.focus_goal < calls
        → ListsAll focus limit calls
    follow_pages-listings focus row limit calls found foci goals more_foci more_goals =
        let id : FocusObjectRow → Uuid = λ row. row.id in
        let root : FocusObjectRow → Bool = λ row. not (is_some row.parent_id) in
        let below : FocusObjectRow → Bool = λ row. is_id focus row.parent_id in
        let owned : FocusGoalRow → Bool = λ row. row.focus_object_id == focus in
        let make : FocusGoalRow → Goal = λ row. whole db.tables (goal_from_row row) in
        (
          follow_pages-made bare id (λ focus. (fields focus).id) (λ row. refl) _ limit _
              (λ at.
                flows-answer id_string parse db quiet user focus
                  (record { limit = limit; cursor = at }))
              calls (rows_where-DistinctKeys id root db.tables.focus_object foci)
              (omega (arith, length-rows_where id root db.tables.focus_object)),
          follow_pages-made bare id (λ focus. (fields focus).id) (λ row. refl) _ limit _
              (λ at.
                children-answer id_string parse db quiet user focus row
                  (record { limit = limit; cursor = at }) found)
              calls (rows_where-DistinctKeys id below db.tables.focus_object foci)
              (omega (arith, length-rows_where id below db.tables.focus_object)),
          follow_pages-made make (λ row. row.id) (λ goal. goal.id) (λ row. scan_links-id _ _) _
              limit _
              (λ at.
                goals-answer id_string parse db quiet user focus row
                  (record { limit = limit; cursor = at }) found)
              calls (rows_where-DistinctKeys (λ row. row.id) owned db.tables.focus_goal goals)
              (omega (arith, length-rows_where (λ row. row.id) owned db.tables.focus_goal)),
        )
