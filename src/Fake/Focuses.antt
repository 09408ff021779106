-- ===== src/Fake/Focuses.antt =====
-- backend/internal/storage/fake/store.go: the methods of `storage.FocusStore`. The identifier of the
-- user, which the store does not read, is their first argument.
pub mod Update
pub mod Delete
pub mod Created
use focus_flow.Common.{
  ℕ, String, Bool, true, false, Option, none, some, List, [], ◌∷◌, ◌++◌, Map, lookup, insert,
  length, if◌then◌else◌, or_keep, is_some,
}
use focus_flow.Storage.{Outcome, ok, err, overflow, not_found}
use focus_flow.Model.{
  Uuid, FocusFields, Focus, node, nil, FocusQuery, CreateFocus, UpdateFocus, NullableUpdate, Page,
  PageRequest, planned,
}
use focus_flow.Model.Int.{rounds}
use focus_flow.Fake.State.{Store, Env, Method, clone_focus}
use focus_flow.Fake.Aggregate.{focus_aggregate, children_locked, focus_page}
use focus_flow.Fake.Hierarchy.{ensure_can_move, delete_focus_locked}

-- `if u.Set { field = u.Value }`
abbrev pub nullable {ℓ} : {A : Type ℓ} → NullableUpdate A → Option A → Option A
nullable u old = if u.set then u.value else old

-- `input.ParentID != nil` and no such focus.
abbrev pub lacks_parent : Store → Option Uuid → Bool
lacks_parent store none = false
lacks_parent store (some p) = if is_some (lookup p store.focuses) then false else true

abbrev pub new_focus : Env → CreateFocus → FocusFields
new_focus env input = record {
  id = env.new_id;
  parent_id = input.parent_id;
  name = input.name;
  status = or_keep input.status planned;
  tags = [] ++ input.tags;
  description = input.description;
  feedback = input.feedback;
  color = input.color;
  goals = [];
  specifications = [];
  created_at = env.now;
  updated_at = env.now;
  finished_at = none;
}

unfoldable pub create_focus : Uuid → CreateFocus → Env → Method Focus
create_focus user input env store =
    if lacks_parent store input.parent_id
    then (err not_found, store)
    else (let focus = new_focus env input in
        (
          ok (node (clone_focus focus) nil),
          record store { focuses = insert env.new_id focus store.focuses },
        ))

unfoldable pub create_flow : Uuid → CreateFocus → Env → Method Focus
unfolding create_focus
create_flow user input = create_focus user (record input { parent_id = none })

-- The checks of UpdateFocus on a new parent.
unfoldable pub check_move : Store → UpdateFocus → Outcome (Unit {0})
unfolding ensure_can_move
check_move store input =
    if input.parent_id.set
    then elim input.parent_id.value [
      | none ↦ ok tt
      | some parent ↦ ensure_can_move store input.id parent
    ]
    else ok tt

-- The assignments of UpdateFocus.
abbrev pub updated_focus : UpdateFocus → ℕ → FocusFields → FocusFields
updated_focus input now focus = record focus {
  parent_id = nullable input.parent_id focus.parent_id;
  name = or_keep input.name focus.name;
  status = or_keep input.status focus.status;
  tags = or_keep input.tags focus.tags;
  description = nullable input.description focus.description;
  feedback = nullable input.feedback focus.feedback;
  color = nullable input.color focus.color;
  updated_at = now;
}

-- What UpdateFocus does behind the checks, by their outcome.
abbrev pub saved_update :
    UpdateFocus → Env → FocusFields → Store → Outcome (Unit {0}) → Outcome Focus × Store
saved_update input env old store (err e) = (err e, store)
saved_update input env old store overflow = (overflow, store)
saved_update input env old store (ok _) =
    let focus = updated_focus input env.now old in
    (
      ok (node (clone_focus focus) nil),
      record store { focuses = insert input.id focus store.focuses },
    )

unfoldable pub update_focus : Uuid → UpdateFocus → Env → Method Focus
unfolding check_move
update_focus user input env store = elim (lookup input.id store.focuses) [
  | none ↦ (err not_found, store)
  | some old ↦ saved_update input env old store (check_move store input)
]

unfoldable pub delete_focus : Uuid → Uuid → Env → Method (Unit {0})
unfolding delete_focus_locked
delete_focus user id env store = elim (lookup id store.focuses) [
  | none ↦ (err not_found, store)
  | some _ ↦ elim (delete_focus_locked (length store.focuses) id store) [
    | none ↦ (overflow, store)
    | some store' ↦ (ok tt, store')
  ]
]

-- The loop of ListFlows, over the aggregate that it calls.
unfoldable pub collect_roots : (Uuid → Focus) → Map FocusFields → List Focus
collect_roots aggregate [] = []
collect_roots aggregate ((k, focus) ∷ focuses) =
    if is_some focus.parent_id
    then collect_roots aggregate focuses
    else aggregate focus.id ∷ collect_roots aggregate focuses

module _ (id_string : Uuid → String) where
  unfoldable pub get_focus : Uuid → FocusQuery → Env → Method Focus
  unfolding focus_aggregate
  get_focus user query env store = elim (lookup query.id store.focuses) [
    | none ↦ (err not_found, store)
    | some focus ↦ (
      ok (
          focus_aggregate id_string store query.include_goals (rounds query.descendant_depth)
            focus.id),
      store,
    )
  ]

  unfoldable pub list_flows : Uuid → PageRequest → FocusQuery → Env → Method (Page Focus)
  unfolding collect_roots focus_aggregate focus_page
  list_flows user page query env store =
      let aggregate =
        focus_aggregate id_string store query.include_goals (rounds query.descendant_depth) in
      (ok (focus_page id_string (collect_roots aggregate store.focuses) page), store)

  unfoldable pub list_focus_children :
      Uuid → Uuid → PageRequest → FocusQuery → Env → Method (Page Focus)
  unfolding children_locked focus_page
  list_focus_children user parent page query env store = elim (lookup parent store.focuses) [
    | none ↦ (err not_found, store)
    | some _ ↦
        let items =
          children_locked id_string store query.include_goals (rounds query.descendant_depth)
            parent in
        (ok (focus_page id_string items page), store)
  ]
