-- ===== src/Tests/Listings.antt =====
-- The listings of the sample store, one item a page.
use focus_flow.Common.{◌≡◌, ◌↔◌, none, some, Any, Rising, arith}
use focus_flow.Model.{Uuid}
use focus_flow.Model.Int.{pos}
use focus_flow.Fake.Valid.{parents}
use focus_flow.Fake.Focuses.{list_flows, list_focus_children}
use focus_flow.Fake.Goals.{list_focus_goals}
use focus_flow.Fake.Listing.{follow_pages}
use focus_flow.Fake.Listing.Flows.{focus_id, list_flows-lists, list_focus_children-lists}
use focus_flow.Fake.Listing.Goals.{goal_key, owner, list_focus_goals-lists}
use focus_flow.Tests.Sample.{text, text-UuidText, user, env, sample, sample-IsValid, query}

list_flows-lists_example :
    let listed =
      follow_pages
        (λ at. (list_flows text user (record { limit = pos 1; cursor = at }) query env sample).0)
        5
        none in
    Rising focus_id listed
    × ((y : Uuid) → Any (λ t. focus_id t ≡ y) listed ↔ (parents sample.focuses y ≡ some none))
list_flows-lists_example =
    list_flows-lists text sample sample-IsValid text-UuidText user env query (pos 1) 5 (omega arith)

list_focus_children-lists_example :
    let listed =
      follow_pages
        (λ at.
          (list_focus_children text user 1
            (record { limit = pos 1; cursor = at })
            query
            env
            sample).0)
        5
        none in
    Rising focus_id listed
    × ((y : Uuid) → Any (λ t. focus_id t ≡ y) listed ↔ (parents sample.focuses y ≡ some (some 1)))
list_focus_children-lists_example =
    list_focus_children-lists text sample sample-IsValid text-UuidText user 1 (λ gone. cc) env query
      (pos 1) 5 (omega arith)

list_focus_goals-lists_example :
    let listed =
      follow_pages
        (λ at. (list_focus_goals text user 4 (record { limit = pos 1; cursor = at }) env sample).0)
        2
        none in
    Rising goal_key listed
    × ((y : Uuid) → Any (λ g. goal_key g ≡ y) listed ↔ (owner sample y ≡ some 4))
list_focus_goals-lists_example =
    list_focus_goals-lists text sample sample-IsValid text-UuidText user 4 (λ gone. cc) env (pos 1)
      2 (omega arith)
