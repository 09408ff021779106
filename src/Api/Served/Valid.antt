-- ===== src/Api/Served/Valid.antt =====
-- What a request does to the store in memory.
use focus_flow.Common.{◌≡◌, String, Option, none, arith, lookup}
use focus_flow.Model.{Uuid, FocusQuery, PageRequest}
use focus_flow.Fake.State.{Store, Env}
use focus_flow.Fake.Focuses
use focus_flow.Fake.Goals
use focus_flow.Fake.Valid.{IsValid}
use focus_flow.Fake.Valid.Methods
use focus_flow.Fake.Repositories.{focus_store, goal_store}
use focus_flow.Repositories.Leads.{Leads}
use focus_flow.Api.Served.{Request, serve}
use focus_flow.Api.Served.Leads.{serve-Leads}

module _ (id_string : Uuid → String) (env : Env) where
  -- A well-formed store in which no focus has the identifier that a new one would get.
  abbrev Ready : Store → Type 0
  Ready store = IsValid store × (lookup env.new_id store.focuses ≡ none)

  module _ (user : Uuid) (store : Store) where
    children-same :
        (parent : Uuid) (page : PageRequest) (query : FocusQuery)
        → (Focuses.list_focus_children id_string user parent page query env store).1 ≡ store
    unfolding Focuses.list_focus_children
    children-same parent page query = ground arith

    get_focus-same :
        (query : FocusQuery) → (Focuses.get_focus id_string user query env store).1 ≡ store
    unfolding Focuses.get_focus
    get_focus-same query = ground arith

    goals-same :
        (focus : Uuid) (page : PageRequest)
        → (Goals.list_focus_goals id_string user focus page env store).1 ≡ store
    unfolding Goals.list_focus_goals
    goals-same focus page = ground arith

    get_goal-same : (goal : Uuid) → (Goals.get_goal user goal env store).1 ≡ store
    unfolding Goals.get_goal
    get_goal-same goal = ground arith

  IsValid-Leads : Leads Ready IsValid (focus_store id_string env) (goal_store id_string env)
  unfolding Focuses.list_flows Focuses.create_flow
  IsValid-Leads = record {
    reads = record {
      list_flows = λ user page query s p. p.0;
      get_focus = λ user query s p. rw (get_focus-same user s query) p.0;
      list_focus_children =
          λ user parent page query s p. rw (children-same user s parent page query) p.0;
      list_focus_goals = λ user focus page s p. rw (goals-same user s focus page) p.0;
      get_goal = λ user id s p. rw (get_goal-same user s id) p.0;
      idle = λ s p. p.0;
    };
    create_flow = λ user input s p.
        Methods.create_focus-IsValid s p.0 user (record input { parent_id = none }) env p.1;
    create_focus = λ user input s p. Methods.create_focus-IsValid s p.0 user input env p.1;
    update_focus = λ user input s p. Methods.update_focus-IsValid s p.0 user input env;
    delete_focus = λ user id s p. Methods.delete_focus-IsValid s p.0 user id env;
    create_goal = λ user input s p. Methods.create_goal-IsValid s p.0 user input env;
    update_goal = λ user input s p. Methods.update_goal-IsValid s p.0 user input env;
    delete_goal = λ user id s p. Methods.delete_goal-IsValid s p.0 user id env;
    link_goal_focus = λ user link s p. Methods.link_goal_focus-IsValid s p.0 user link env;
    unlink_goal_focus = λ user link s p. Methods.unlink_goal_focus-IsValid s p.0 user link env;
  }

  -- Every request keeps the store in memory well formed, with or without a user and whatever it
  -- answers, if the identifier that a new focus would get is one that no focus has.
  serve-IsValid :
      (store : Store)
      → IsValid store
      → (user : Option Uuid) (r : Request) → lookup env.new_id store.focuses ≡ none
      → IsValid (serve (focus_store id_string env) (goal_store id_string env) user r store).1
  serve-IsValid store v user r fresh = serve-Leads _ _ IsValid-Leads user r store (v, fresh)
