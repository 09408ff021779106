-- ===== src/Postgres/GoalStore/Atomic.antt =====
-- CreateGoal writes the goal, its links and its event, or nothing.
use focus_flow.Common.{
  if◌then◌else◌, ◌≡◌, refl, ◌⊎◌, inl, inr, true, none, some, List, [], ◌∷◌, arith, lookup,
  lookup-insert, All, Bool-cases,
}
use focus_flow.Model.{Uuid, Time, CreateGoal}
use focus_flow.Postgres.Rows.{FocusEventRow}
use focus_flow.Postgres.Sql.{Tables, Db, as_it_is, map_not_found}
use focus_flow.Postgres.Sql.Keeps.{
  Keeps-now, Keeps-new_id, Post, Triple, PostReply, PostReply-guarded, Triple-pure,
  Triple-statement, Triple-bind, Triple-mono, Triple-transaction,
}
use focus_flow.Postgres.Statements.{insert_event_row}
use focus_flow.Postgres.GoalStatements.{insert_goal, insert_link, new_link, has_link}
use focus_flow.Postgres.GoalStore.{
  event_row, insert_event, link_all, created_goal_row, create_goal_rows, create_goal,
}
use focus_flow.Postgres.GoalStore.Reads.{get_focus_base-Keeps, get_goal-Keeps}

abbrev HasGoal : CreateGoal → Uuid → Tables → Type 0
HasGoal input id t = (at : Time) × (lookup id t.focus_goal ≡ some (created_goal_row id at input))

abbrev HasLink : Uuid → Tables → Uuid → Type 0
HasLink goal t focus = has_link goal focus t.focus_goal_link ≡ true

abbrev HasEvent : Uuid → Tables → Type 0
HasEvent id t =
    (k : Uuid) × (row : FocusEventRow) × (lookup k t.focus_event ≡ some row)
    × (row.goal_id ≡ some id)
    × (row.event_type ≡ "goal.created")

-- The goal of the input is there, with every link that it names and the event of its creation.
abbrev pub IsCreated : CreateGoal → Uuid → Tables → Type 0
IsCreated input id t =
    HasGoal input id t × All (HasLink id t) input.linked_focus_ids × HasEvent id t

abbrev Anywhere : Tables → Type 0
Anywhere t = Unit {0}

insert_goal-HasGoal :
    (input : CreateGoal) (id : Uuid) (at : Time) (t : Tables)
    → PostReply
        (λ row. HasGoal input row.id)
        Anywhere
        (insert_goal (created_goal_row id at input) t)
unfolding insert_goal
insert_goal-HasGoal input id at t = PostReply-guarded _ Anywhere _ _ _ t tt λ checked.
    PostReply-guarded _ Anywhere _ _ _ t tt λ fresh.
      PostReply-guarded _ Anywhere _ _ _ t tt λ there.
        (at, ground (arith, lookup-insert id id (created_goal_row id at input) t.focus_goal))

-- What an insert of a link keeps, and what it makes true.
module _ (goal : Uuid) (P : Tables → Type 0)
    (kept : (focus : Uuid) (t : Tables)
      → P t
      → P (record t { focus_goal_link = new_link goal focus ∷ t.focus_goal_link })) where
  insert_link-HasLink :
      (focus : Uuid) (t : Tables)
      → P t
      → PostReply (λ _ t. P t × HasLink goal t focus) Anywhere (insert_link goal focus t)
  unfolding insert_link has_link
  insert_link-HasLink focus t p = elim (Bool-cases (has_link goal focus t.focus_goal_link)) [
    | inl there ↦ rw (there, insert_link, if◌then◌else◌) (p, there)
    | inr absent ↦
        rw (absent, insert_link, if◌then◌else◌)
          (PostReply-guarded _ Anywhere _ _ _ t tt λ has_goal.
            PostReply-guarded _ Anywhere _ _ _ t tt λ has_focus. (kept focus t p, ground arith))
  ]

HasLink-kept :
    (goal f focus : Uuid) (t : Tables)
    → HasLink goal t f
    → HasLink goal (record t { focus_goal_link = new_link goal focus ∷ t.focus_goal_link }) f
unfolding has_link
HasLink-kept goal f focus t h = ground arith

link_all-HasLink :
    (goal : Uuid) (foci : List Uuid) (P : Tables → Type 0)
    → ((focus : Uuid) (t : Tables)
        → P t
        → P (record t { focus_goal_link = new_link goal focus ∷ t.focus_goal_link }))
    → Triple P (link_all goal foci) (λ _ t. P t × All (HasLink goal t) foci) Anywhere
unfolding link_all
link_all-HasLink goal [] P kept = Triple-pure tt (λ t p. (p, tt))
link_all-HasLink goal (focus ∷ foci) P kept =
    Triple-bind _ _
      (Triple-statement map_not_found (insert_link goal focus) (λ t p. tt)
        (insert_link-HasLink goal P kept focus))
      λ _.
        Triple-mono _ (λ t p. p) (λ a t ((p, l), ls). (p, (l, ls))) (λ t p. p)
          (link_all-HasLink goal foci (λ t. P t × HasLink goal t focus)
            (λ f t (p, l). (kept f t p, HasLink-kept goal focus f t l)))

-- An event about the goal, where events are the last that is written.
insert_event-HasEvent :
    (input : CreateGoal) (id : Uuid)
    → Triple
        (λ t. HasGoal input id t × All (HasLink id t) input.linked_focus_ids)
        (insert_event none (some id) "goal.created")
        (λ _. IsCreated input id)
        Anywhere
unfolding insert_event insert_event_row
insert_event-HasEvent input id =
    Triple-bind _ _ (Triple-mono _ (λ t p. p) (λ a t p. p) (λ t p. tt) Keeps-new_id) λ k.
      Triple-bind _ _ (Triple-mono _ (λ t p. p) (λ a t p. p) (λ t p. tt) Keeps-now) λ at.
        Triple-statement as_it_is (insert_event_row (event_row k at none (some id) "goal.created"))
          (λ t p. tt)
          λ t (goal, links). PostReply-guarded _ Anywhere _ _ _ t tt λ checked.
            PostReply-guarded _ Anywhere _ _ _ t tt λ fresh.
              PostReply-guarded _ Anywhere _ _ _ t tt λ has_focus.
                PostReply-guarded _ Anywhere _ _ _ t tt λ has_goal. (
                  goal,
                  links,
                  (
                    k,
                    event_row k at none (some id) "goal.created",
                    ground (
                      arith,
                      lookup-insert k k (event_row k at none (some id) "goal.created")
                          t.focus_event,
                    ),
                    refl,
                    refl,
                  ),
                )

create_goal_rows-IsCreated :
    (input : CreateGoal) → Triple Anywhere (create_goal_rows input) (IsCreated input) Anywhere
unfolding create_goal_rows
create_goal_rows-IsCreated input = Triple-bind _ _ Keeps-new_id λ id.
    Triple-bind _ _ Keeps-now λ at.
      Triple-bind _ _
        (Triple-statement map_not_found (insert_goal (created_goal_row id at input)) (λ t p. tt)
          (λ t p. insert_goal-HasGoal input id at t))
        λ row.
          Triple-bind _ _
            (link_all-HasLink row.id input.linked_focus_ids (HasGoal input row.id) (λ f t p. p))
            λ _.
              Triple-bind _ _ (insert_event-HasEvent input row.id)
                λ _. Triple-pure row.id (λ t p. p)

abbrev pub AllOrNothing : Tables → CreateGoal → Tables → Type 0
AllOrNothing before input t = (t ≡ before) ⊎ ((id : Uuid) × IsCreated input id t)

create_goal-Triple :
    (before : Tables) (user : Uuid) (input : CreateGoal)
    → Triple
        (λ t. t ≡ before)
        (create_goal user input)
        (λ _ t. (id : Uuid) × IsCreated input id t)
        (AllOrNothing before input)
unfolding create_goal
create_goal-Triple before user input =
    Triple-bind _ _
      (Triple-mono _ (λ t e. e) (λ a t e. e) (λ t e. inl e)
        (get_focus_base-Keeps input.owner_focus_id))
      λ _.
        Triple-bind _ _
          (Triple-transaction (create_goal_rows input) (λ t e. inl e)
            (Triple-mono _ (λ t e. tt) (λ id t h. h) (λ t h. tt)
              (create_goal_rows-IsCreated input)))
          λ id.
            Triple-mono _ (λ t h. h) (λ goal t h. (id, h)) (λ t h. inr (id, h))
              (get_goal-Keeps 0 id)

-- CreateGoal of the PostgreSQL store, whichever statements fail, leaves either the tables as they
-- were or the goal of the input with every link that it names and the event of its creation; if
-- it returns without an error, it is the latter.
pub create_goal-atomic :
    (db : Db) (user : Uuid) (input : CreateGoal)
    → Post
        (λ goal t. (id : Uuid) × IsCreated input id t)
        (AllOrNothing db.tables input)
        (create_goal user input db)
create_goal-atomic db user input = (create_goal-Triple db.tables user input).at db refl
