-- ===== src/Postgres/Pages/Answers.antt =====
-- The pages that ListFocusGoals, ListFlows and ListFocusChildren of the PostgreSQL store answer
-- with when no statement fails.
use focus_flow.Common.{
  ℕ, ◌≡◌, refl, subst, ◌∙◌, ap, String, false, not, Option, some, List, [], ◌∷◌, map, ◌==◌, lookup,
  is_some, sort_slice, by_key,
}
use focus_flow.Storage.{ok}
use focus_flow.Model.{Uuid, Goal, Focus, fields, node, nil, FocusFields, PageRequest}
use focus_flow.Fake.State.{no_progress}
use focus_flow.Fake.Focuses.Created.{alone}
use focus_flow.Postgres.{FocusObjectRow, focus_from_row, page_limit, page_from_items}
use focus_flow.Postgres.Rows.{goal_from_row}
use focus_flow.Postgres.Pages.{map_page, page_from_items-map}
use focus_flow.Postgres.Walk.{list_page}
use focus_flow.Postgres.Sql.{Tables, Db, each, as_it_is, map_not_found}
use focus_flow.Postgres.Sql.Quiet.{Quiet}
use focus_flow.Postgres.Sql.Gives.{Gives, Gives-pure, Gives-statement, Gives-bind, Gives-each}
use focus_flow.Postgres.Statements.{rows_where, is_id, select_focus, select_flows, select_children}
use focus_flow.Postgres.GoalStatements.{LinkedRow, join_links, select_goals, select_linked}
use focus_flow.Postgres.GoalStore.{
  get_focus_base, scan_links, goal_aggregate, scan_goal_rows, list_focus_goals,
}
use focus_flow.Postgres.FocusStore.{
  attach_goals, attach_specifications, attach_own, attach_focus_aggregate, children_page,
  list_flows, list_focus_children,
}

-- What goalAggregate makes of a goal on the tables.
abbrev pub whole : Tables → Goal → Goal
whole t goal =
    scan_links
      (sort_slice (by_key λ row. row.focus_object_id)
        (join_links goal.id t.focus_object t.focus_goal_link))
      (record goal { linked_focus_ids = []; progress = no_progress })

pub scan_links-id : (rows : List LinkedRow) (goal : Goal) → (scan_links rows goal).id ≡ goal.id
unfolding scan_links
scan_links-id [] goal = refl
scan_links-id (row ∷ rows) goal = scan_links-id rows _

-- A focus without what a query may attach.
abbrev pub bare : FocusObjectRow → Focus
bare row = node (focus_from_row row) nil

module _ (id_string : Uuid → String) (parse : String → Option Uuid) (db : Db) (quiet : Quiet db)
    (user : Uuid) where
  goal_aggregate-Gives :
      (goal : Goal) → Gives db.tables db.outside (goal_aggregate goal) (whole db.tables goal)
  unfolding goal_aggregate select_linked
  goal_aggregate-Gives goal =
      Gives-bind _ _ _ _ (Gives-statement as_it_is _ _ quiet refl) (Gives-pure _)

  get_focus_base-Gives :
      (id : Uuid) (row : FocusObjectRow)
      → lookup id db.tables.focus_object ≡ some row
      → Gives db.tables db.outside (get_focus_base id) (focus_from_row row)
  unfolding get_focus_base select_focus
  get_focus_base-Gives id row found =
      Gives-bind _ _ row _ (Gives-statement map_not_found _ row quiet (rw found refl))
        (Gives-pure _)

  -- The page that ListFocusGoals answers with.
  pub goals-answer :
      (focus : Uuid) (row : FocusObjectRow) (page : PageRequest)
      → lookup focus db.tables.focus_object ≡ some row
      → (list_focus_goals id_string parse user focus page db).0
        ≡ ok (
            map_page
              (λ row. whole db.tables (goal_from_row row))
              (list_page
                (λ row. row.id)
                id_string
                parse
                (rows_where (λ row. row.focus_object_id == focus) db.tables.focus_goal)
                page))
  unfolding list_focus_goals list_page select_goals scan_goal_rows
  goals-answer focus row page found =
      let answer = Gives-bind _ _ _ _ (get_focus_base-Gives focus row found) (
        Gives-bind _ _ _ _ (Gives-statement as_it_is _ _ quiet refl) (
          Gives-bind _ _ _ _
            (Gives-each _ (λ row. whole db.tables (goal_from_row row))
              (λ row. goal_aggregate-Gives (goal_from_row row)) _)
            (Gives-pure _))) in
      let (k, e) = answer db.ticks in
      ap (λ r. r.0) e
      ∙ ap ok (
          page_from_items-map (λ row. whole db.tables (goal_from_row row)) (λ row. row.id)
            (λ goal. goal.id) (λ row. scan_links-id _ _) id_string _ (page_limit page))

  attach-Gives :
      (focus : FocusFields)
      → Gives db.tables db.outside
          (attach_focus_aggregate id_string parse false false 0 focus)
          (node focus nil)
  unfolding attach_focus_aggregate attach_own attach_goals attach_specifications
  attach-Gives focus =
      Gives-bind _ _ _ _ (Gives-bind _ _ _ _ (Gives-pure focus) (Gives-pure focus)) (Gives-pure _)

  bare-page :
      (rows : List FocusObjectRow) (n : ℕ)
      → page_from_items (λ focus. (fields focus).id) id_string (map bare rows) n
        ≡ map_page bare (page_from_items (λ row. row.id) id_string rows n)
  bare-page =
      page_from_items-map bare (λ row. row.id) (λ focus. (fields focus).id) (λ row. refl) id_string

  map-map :
      (rows : List FocusObjectRow)
      → map (λ focus. node focus nil) (map focus_from_row rows) ≡ map bare rows
  map-map [] = refl
  map-map (row ∷ rows) = ap (◌∷◌ (bare row)) (map-map rows)

  attached :
      (rows : List FocusObjectRow)
      → Gives db.tables db.outside
          (each (attach_focus_aggregate id_string parse false false 0) (map focus_from_row rows))
          (map bare rows)
  attached rows =
      let attach = attach_focus_aggregate id_string parse false false 0 in
      subst (Gives db.tables db.outside (each attach (map focus_from_row rows))) (map-map rows)
        (Gives-each attach (λ focus. node focus nil) attach-Gives (map focus_from_row rows))

  -- The page that ListFlows answers with.
  pub flows-answer :
      (id : Uuid) (page : PageRequest)
      → (list_flows id_string parse user page (alone id) db).0
        ≡ ok (
            map_page bare (
              list_page
                (λ row. row.id)
                id_string
                parse
                (rows_where (λ row. not (is_some row.parent_id)) db.tables.focus_object)
                page))
  unfolding list_flows list_page select_flows
  flows-answer id page =
      let answer =
        Gives-bind _ _ _ _ (Gives-statement as_it_is _ _ quiet refl)
          (Gives-bind _ _ _ _ (attached _) (Gives-pure _)) in
      let (k, e) = answer db.ticks in ap (λ r. r.0) e ∙ ap ok (bare-page _ (page_limit page))

  -- The page that ListFocusChildren answers with.
  pub children-answer :
      (parent : Uuid) (row : FocusObjectRow) (page : PageRequest)
      → lookup parent db.tables.focus_object ≡ some row
      → (list_focus_children id_string parse user parent page (alone parent) db).0
        ≡ ok (
            map_page bare (
              list_page
                (λ row. row.id)
                id_string
                parse
                (rows_where (λ row. is_id parent row.parent_id) db.tables.focus_object)
                page))
  unfolding list_focus_children children_page list_page select_children
  children-answer parent row page found =
      let answer = Gives-bind _ _ _ _ (get_focus_base-Gives parent row found) (
        Gives-bind _ _ _ _ (Gives-statement as_it_is _ _ quiet refl)
          (Gives-bind _ _ _ _ (attached _) (Gives-pure _))) in
      let (k, e) = answer db.ticks in ap (λ r. r.0) e ∙ ap ok (bare-page _ (page_limit page))
