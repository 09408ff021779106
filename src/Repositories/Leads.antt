-- ===== src/Repositories/Leads.antt =====
-- What a pair of stores may promise of its methods: each leads from one property of the state to
-- another, whatever it returns.
use focus_flow.Model.{
  Uuid, FocusQuery, CreateFocus, UpdateFocus, CreateGoal, UpdateGoal, GoalFocusLink, PageRequest,
}
use focus_flow.Repositories.{FocusStore, GoalStore}

module _ {S : Type 0} where
  -- A method that needs the first property of the state leaves the second.
  abbrev pub LeadsTo : {R : Type 0} → (S → Type 0) → (S → Type 0) → (S → R × S) → Type 0
  LeadsTo P Q method = (s : S) → P s → Q (method s).1

  -- The methods that only read.
  pub record Reads (P Q : S → Type 0) (focuses : FocusStore S) (goals : GoalStore S) : Type 0 where
    pub list_flows :
        (user : Uuid) (page : PageRequest) (query : FocusQuery)
        → LeadsTo P Q (focuses.list_flows user page query)
    pub get_focus : (user : Uuid) (query : FocusQuery) → LeadsTo P Q (focuses.get_focus user query)
    pub list_focus_children :
        (user parent : Uuid) (page : PageRequest) (query : FocusQuery)
        → LeadsTo P Q (focuses.list_focus_children user parent page query)
    pub list_focus_goals :
        (user focus : Uuid) (page : PageRequest)
        → LeadsTo P Q (goals.list_focus_goals user focus page)
    pub get_goal : (user id : Uuid) → LeadsTo P Q (goals.get_goal user id)
    -- What the state is when no method is called.
    pub idle : (s : S) → P s → Q s

  pub record Leads (P Q : S → Type 0) (focuses : FocusStore S) (goals : GoalStore S) : Type 0 where
    pub reads : Reads P Q focuses goals
    pub create_flow :
        (user : Uuid) (input : CreateFocus) → LeadsTo P Q (focuses.create_flow user input)
    pub create_focus :
        (user : Uuid) (input : CreateFocus) → LeadsTo P Q (focuses.create_focus user input)
    pub update_focus :
        (user : Uuid) (input : UpdateFocus) → LeadsTo P Q (focuses.update_focus user input)
    pub delete_focus : (user id : Uuid) → LeadsTo P Q (focuses.delete_focus user id)
    pub create_goal :
        (user : Uuid) (input : CreateGoal) → LeadsTo P Q (goals.create_goal user input)
    pub update_goal :
        (user : Uuid) (input : UpdateGoal) → LeadsTo P Q (goals.update_goal user input)
    pub delete_goal : (user id : Uuid) → LeadsTo P Q (goals.delete_goal user id)
    pub link_goal_focus :
        (user : Uuid) (link : GoalFocusLink) → LeadsTo P Q (goals.link_goal_focus user link)
    pub unlink_goal_focus :
        (user : Uuid) (link : GoalFocusLink) → LeadsTo P Q (goals.unlink_goal_focus user link)
