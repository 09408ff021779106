-- ===== src/Postgres/Sound/Writes.antt =====
-- Inserts and updates keep the references between the tables.
use focus_flow.Common.{
  ◌≡◌, refl, sym, subst, inl, inr, Option, none, some, List, arith, Map, insert, lookup-insert, All,
  All-mono, eq-cases,
}
use focus_flow.Model.{Uuid}
use focus_flow.Postgres.{FocusObjectRow}
use focus_flow.Postgres.Rows.{FocusGoalRow, FocusGoalLinkRow, FocusEventRow}
use focus_flow.Postgres.Sql.{Tables}
use focus_flow.Postgres.Sound.{Has, HasIfGiven, Rows, IsIntegral}

module _ {V : Type 0} where
  pub Has-insert : (k x : Uuid) (v : V) (m : Map V) → Has m x → Has (insert k v m) x
  Has-insert k x v m h = λ e. h (ground (arith, lookup-insert x k v m))

  pub HasIfGiven-insert :
      (k : Uuid) (o : Option Uuid) (v : V) (m : Map V)
      → HasIfGiven m o
      → HasIfGiven (insert k v m) o
  HasIfGiven-insert k none v m h = tt
  HasIfGiven-insert k (some x) v m h = Has-insert k x v m h

  -- The rows behind an insert: the new one, and old ones.
  pub Rows-insert :
      {P P' : Uuid → V → Type 0} (k : Uuid) (v : V) (m : Map V)
      → ((j : Uuid) (w : V) → P j w → P' j w)
      → P' k v
      → Rows m P
      → Rows (insert k v m) P'
  Rows-insert {P} {P'} k v m mono new old j w h = elim (eq-cases j k) [
    | inl same ↦ subst (λ i. P' i w) (sym same) (subst (P' k) (inserted same) new)
    | inr differ ↦ mono j w (old j w (ground (arith, lookup-insert j k v m)))
  ]
    where
      inserted : j ≡ k → v ≡ w
      inserted same = ground (arith, lookup-insert j k v m)

pub insert_focus-IsIntegral :
    (t : Tables) (row : FocusObjectRow)
    → IsIntegral t
    → HasIfGiven t.focus_object row.parent_id
    → IsIntegral (record t { focus_object = insert row.id row t.focus_object })
insert_focus-IsIntegral t row v parent = record {
  focus_ids = Rows-insert row.id row t.focus_object (λ j w e. e) refl v.focus_ids;
  parents =
      Rows-insert row.id row t.focus_object (λ j w h. given w.parent_id h)
        (given row.parent_id parent) v.parents;
  goal_ids = v.goal_ids;
  owners = λ k w e. kept w.focus_object_id (v.owners k w e);
  links = All-mono t.focus_goal_link (λ link h. (h.0, kept link.focus_object_id h.1)) v.links;
  specifications = λ k w e. kept w.focus_object_id (v.specifications k w e);
  event_foci = λ k w e. given w.focus_object_id (v.event_foci k w e);
  event_goals = v.event_goals;
}
  where
    kept : (x : Uuid) → Has t.focus_object x → Has (insert row.id row t.focus_object) x
    kept x = Has-insert row.id x row t.focus_object

    given :
        (o : Option Uuid)
        → HasIfGiven t.focus_object o
        → HasIfGiven (insert row.id row t.focus_object) o
    given o = HasIfGiven-insert row.id o row t.focus_object

pub insert_goal-IsIntegral :
    (t : Tables) (row : FocusGoalRow)
    → IsIntegral t
    → Has t.focus_object row.focus_object_id
    → IsIntegral (record t { focus_goal = insert row.id row t.focus_goal })
insert_goal-IsIntegral t row v owner = record {
  focus_ids = v.focus_ids;
  parents = v.parents;
  goal_ids = Rows-insert row.id row t.focus_goal (λ j w e. e) refl v.goal_ids;
  owners = Rows-insert row.id row t.focus_goal (λ j w h. h) owner v.owners;
  links =
      All-mono t.focus_goal_link
        (λ link h. (Has-insert row.id link.goal_id row t.focus_goal h.0, h.1)) v.links;
  specifications = v.specifications;
  event_foci = v.event_foci;
  event_goals = λ k w e. HasIfGiven-insert row.id w.goal_id row t.focus_goal (v.event_goals k w e);
}

pub insert_event-IsIntegral :
    (t : Tables) (row : FocusEventRow)
    → IsIntegral t
    → HasIfGiven t.focus_object row.focus_object_id
    → HasIfGiven t.focus_goal row.goal_id
    → IsIntegral (record t { focus_event = insert row.id row t.focus_event })
insert_event-IsIntegral t row v focus goal = record {
  focus_ids = v.focus_ids;
  parents = v.parents;
  goal_ids = v.goal_ids;
  owners = v.owners;
  links = v.links;
  specifications = v.specifications;
  event_foci = Rows-insert row.id row t.focus_event (λ j w h. h) focus v.event_foci;
  event_goals = Rows-insert row.id row t.focus_event (λ j w h. h) goal v.event_goals;
}

abbrev pub Linked : Tables → FocusGoalLinkRow → Type 0
Linked t link = Has t.focus_goal link.goal_id × Has t.focus_object link.focus_object_id

pub relink-IsIntegral :
    (t : Tables) (rows : List FocusGoalLinkRow)
    → IsIntegral t
    → All (Linked t) rows
    → IsIntegral (record t { focus_goal_link = rows })
relink-IsIntegral t rows v linked = record {
  focus_ids = v.focus_ids;
  parents = v.parents;
  goal_ids = v.goal_ids;
  owners = v.owners;
  links = linked;
  specifications = v.specifications;
  event_foci = v.event_foci;
  event_goals = v.event_goals;
}
