-- ===== src/Postgres/FocusStore/Reads.antt =====
-- The reads of focus_store.go keep every property of the tables.
use focus_flow.Common.{ℕ, zero, suc, String, Bool, true, false, Option}
use focus_flow.Model.{Uuid, FocusFields, Focus, PageRequest, FocusQuery}
use focus_flow.Postgres.Sql.{Tables, Action}
use focus_flow.Postgres.Sql.Keeps.{keeps_rules, Keeps, Keeps-pure}
use focus_flow.Postgres.Statements.{select_flows, select_children, select_below}
use focus_flow.Postgres.GoalStore.Reads.{
  get_focus_base-Keeps, list_specifications-Keeps, list_focus_goals-Keeps,
}
use focus_flow.Postgres.FocusStore.{
  ensure_not_below, ensure_can_move_focus, attach_goals, attach_specifications, attach_own,
  children_page, attach_focus_aggregate, get_focus, list_flows, list_focus_children,
}

module _ {P : Tables → Type 0} where
  pub ensure_can_move_focus-Keeps : (id parent : Uuid) → Keeps P (ensure_can_move_focus id parent)
  unfolding ensure_can_move_focus ensure_not_below select_below
  ensure_can_move_focus-Keeps id parent = search (keeps_rules, get_focus_base-Keeps) depth 12

  module _ (id_string : Uuid → String) (parse : String → Option Uuid) where
    attach_goals-Keeps :
        (goals : Bool) (focus : FocusFields) → Keeps P (attach_goals id_string parse goals focus)
    unfolding attach_goals
    attach_goals-Keeps false focus = Keeps-pure focus
    attach_goals-Keeps true focus = search (keeps_rules, list_focus_goals-Keeps)

    attach_specifications-Keeps :
        (specs : Bool) (focus : FocusFields)
        → Keeps P (attach_specifications id_string parse specs focus)
    unfolding attach_specifications
    attach_specifications-Keeps false focus = Keeps-pure focus
    attach_specifications-Keeps true focus = search (keeps_rules, list_specifications-Keeps)

    attach_own-Keeps :
        (goals specs : Bool) (focus : FocusFields)
        → Keeps P (attach_own id_string parse goals specs focus)
    unfolding attach_own
    attach_own-Keeps goals specs focus =
        search (keeps_rules, attach_goals-Keeps, attach_specifications-Keeps)

    children_page-Keeps :
        (attach : FocusFields → Action Focus) (parent : Uuid) (page : PageRequest)
        → ((focus : FocusFields) → Keeps P (attach focus))
        → Keeps P (children_page id_string parse attach parent page)
    unfolding children_page select_children
    children_page-Keeps attach parent page h = search (keeps_rules, get_focus_base-Keeps) depth 12

    attach_focus_aggregate-Keeps :
        (goals specs : Bool) (depth : ℕ) (focus : FocusFields)
        → Keeps P (attach_focus_aggregate id_string parse goals specs depth focus)
    unfolding attach_focus_aggregate
    attach_focus_aggregate-Keeps goals specs zero focus = search (keeps_rules, attach_own-Keeps)
    attach_focus_aggregate-Keeps goals specs (suc depth) focus =
        let below = attach_focus_aggregate-Keeps goals specs depth in
        search (keeps_rules, attach_own-Keeps, children_page-Keeps, below) depth 12

    pub get_focus-Keeps :
        (user : Uuid) (query : FocusQuery) → Keeps P (get_focus id_string parse user query)
    unfolding get_focus
    get_focus-Keeps user query =
        search (keeps_rules, get_focus_base-Keeps, attach_focus_aggregate-Keeps)

    pub list_flows-Keeps :
        (user : Uuid) (page : PageRequest) (query : FocusQuery)
        → Keeps P (list_flows id_string parse user page query)
    unfolding list_flows select_flows
    list_flows-Keeps user page query = search (keeps_rules, attach_focus_aggregate-Keeps) depth 12

    pub list_focus_children-Keeps :
        (user parent : Uuid) (page : PageRequest) (query : FocusQuery)
        → Keeps P (list_focus_children id_string parse user parent page query)
    unfolding list_focus_children
    list_focus_children-Keeps user parent page query =
        search (children_page-Keeps, attach_focus_aggregate-Keeps)
