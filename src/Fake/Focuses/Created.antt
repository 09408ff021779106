-- ===== src/Fake/Focuses/Created.antt =====
-- What GetFocus returns of a focus that CreateFocus made.
use focus_flow.Common.{◌≡◌, String, false, none, some, [], arith, lookup-insert}
use focus_flow.Storage.{ok}
use focus_flow.Model.{Uuid, FocusQuery, CreateFocus, node, nil}
use focus_flow.Model.Int.{pos}
use focus_flow.Fake.State.{Store, Env}
use focus_flow.Fake.Aggregate.{focus_fields, focus_aggregate}
use focus_flow.Fake.Focuses.{create_focus, get_focus, new_focus, lacks_parent}

abbrev pub alone : Uuid → FocusQuery
alone id = record {
  id = id;
  include_goals = false;
  include_specs = false;
  descendant_depth = pos 0;
  children_page_request = none;
}

module _ (id_string : Uuid → String) (user : Uuid) where
  -- With no parent, or one that exists, CreateFocus returns the focus with the identifier and the
  -- time of the call and with the fields of the input, planned if the input has no status,
  -- without goals and children; GetFocus for that identifier, without goals and children, returns
  -- the same from the store that is left.
  pub get_focus-create_focus :
      (input : CreateFocus) (env later : Env) (store : Store)
      → lacks_parent store input.parent_id ≡ false
      → let after = (create_focus user input env store).1 in
        ((create_focus user input env store).0
          ≡ ok (
              node
                (record {
                  id = env.new_id;
                  parent_id = input.parent_id;
                  name = input.name;
                  status = elim input.status [ none ↦ "planned" | some status ↦ status ];
                  tags = input.tags;
                  description = input.description;
                  feedback = input.feedback;
                  color = input.color;
                  goals = [];
                  specifications = [];
                  created_at = env.now;
                  updated_at = env.now;
                  finished_at = none;
                })
                nil))
        × ((get_focus id_string user (alone env.new_id) later after).0
            ≡ (create_focus user input env store).0)
  unfolding create_focus get_focus focus_aggregate focus_fields
  get_focus-create_focus input env later store parent =
      let found = lookup-insert env.new_id env.new_id (new_focus env input) store.focuses in
      (ground arith, ground arith)
