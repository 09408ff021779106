-- ===== src/Tests/Rows.antt =====
-- Small tables of the PostgreSQL store: a flow 1 with the child 2, and a flow 3.
use focus_flow.Common.{
  ℕ, ◌+◌, ◌≡◌, refl, sym, Map, subst, fun_ext, true, Option, none, some, [], ◌∷◌, arith, inl, inr,
  eq-cases,
}
use focus_flow.Storage.{Outcome, ok}
use focus_flow.Forest.{root, child, IsForest}
use focus_flow.Model.{move_focus, Uuid, CreateGoal, planned, primary}
use focus_flow.Fake.State.{Store, zero_focus}
use focus_flow.Fake.Valid.{parents, IsValid}
use focus_flow.Postgres.{FocusObjectRow}
use focus_flow.Postgres.Sql.{Tables, Outside, Db}
use focus_flow.Postgres.Sql.Keeps.{Post}
use focus_flow.Postgres.Descent.{hierarchy}
use focus_flow.Postgres.Statements.{delete_focus_row}
use focus_flow.Postgres.Schema.{focus_checks}
use focus_flow.Postgres.FocusStore.Race.{moved, checked, raced}
use focus_flow.Postgres.FocusStore.Race.Cycle.{Root, moves_race}
use focus_flow.Postgres.GoalStore
use focus_flow.Postgres.GoalStore.Atomic.{IsCreated, AllOrNothing, create_goal-atomic}
use focus_flow.Postgres.Sound.{IsSound, Rows}
use focus_flow.Postgres.Sound.Delete.{Deletes, delete_focus_row-Deletes}
use focus_flow.Postgres.Calls.{no_rows_yet}
use focus_flow.Tests.Sample.{user}

abbrev pub row : Uuid → Option Uuid → FocusObjectRow
row id parent = record {
  id = id;
  parent_id = parent;
  name = "focus";
  status = planned;
  tags = [];
  description = none;
  feedback = none;
  color = none;
  created_at = 0;
  updated_at = 0;
  finished_at = none;
}

abbrev pub tables : Tables
tables = record no_rows_yet {
  focus_object = (1, row 1 none) ∷ (2, row 2 (some 1)) ∷ (3, row 3 none) ∷ [];
}

-- Identifiers from 100 on, and no fault.
abbrev pub calm : Outside
calm = record { ids = λ n. 100 + n; times = λ n. n; faults = λ n. none }

-- The statement with the given number fails.
abbrev pub lost_at : Uuid → Outside
lost_at m = record calm { faults = λ n. elim (eq-cases n m) [ inl e ↦ some "lost" | inr e ↦ none ] }

abbrev pub db : Db
db = record { tables = tables; ticks = 0; outside = calm }

-- A store in memory with the same hierarchy.
abbrev pub twin : Store
twin = record {
  focuses =
      (1, record zero_focus { id = 1 })
      ∷ (2, record zero_focus { id = 2; parent_id = some 1 })
      ∷ (3, record zero_focus { id = 3 })
      ∷ [];
  goals = [];
}

twin-IsForest : IsForest (parents twin.focuses)
twin-IsForest x q h = elim (eq-cases x 1) [
  | inl same ↦ (0, root (ground arith))
  | inr not_first ↦ elim (eq-cases x 2) [
    | inl same ↦ (1, child 1 (ground arith) (root refl))
    | inr not_second ↦ elim (eq-cases x 3) [
      | inl same ↦ (0, root (ground arith))
      | inr unknown ↦ absurd (ground arith)
    ]
  ]
]

pub same_hierarchy : (x : ℕ) → parents twin.focuses x ≡ hierarchy tables.focus_object x
same_hierarchy x = ground arith

delete_focus_row-Deletes_example : Deletes tables 1 (delete_focus_row 1 tables)
delete_focus_row-Deletes_example = delete_focus_row-Deletes tables 1 (λ gone. cc)

movable :
    (id : Uuid) (parent : Uuid) (at : ℕ)
    → ¬ (parent ≡ id)
    → focus_checks (moved parent at (row id none)) ≡ true
unfolding focus_checks
movable id parent at differ = ground arith

first-Root : Root tables (row 1 none)
first-Root = record { found = refl; is_root = refl; checks = movable 1 }

third-Root : Root tables (row 3 none)
third-Root = record { found = refl; is_root = refl; checks = movable 3 }

abbrev first_check : Outcome (Unit {0}) × Db
first_check = checked (move_focus 1 3) tables 0 calm

abbrev second_check : Outcome (Unit {0}) × Db
second_check = checked (move_focus 3 1) first_check.1.tables 50 calm

moves_race_example :
    (first_check.0 ≡ ok tt)
    × (second_check.0 ≡ ok tt)
    × (¬ IsForest (
        hierarchy
          (raced (row 1 none) (row 3 none) second_check.1.tables 10 60 calm calm).focus_object))
moves_race_example =
    moves_race (row 1 none) (row 3 none) (λ e. omega arith) tables 0 50 10 60 calm calm
      (subst IsForest (fun_ext same_hierarchy) twin-IsForest) first-Root third-Root (λ n. refl)
      (λ n. refl)

abbrev new_goal : CreateGoal
new_goal = record {
  owner_focus_id = 1;
  goal_type = primary;
  description = "goal";
  status_override = none;
  linked_focus_ids = 2 ∷ 3 ∷ [];
}

-- The insert of the second link is lost.
abbrev cut_off : Db
cut_off = record { tables = tables; ticks = 0; outside = lost_at 6 }

create_goal-atomic_example :
    Post
      (λ goal t. (id : Uuid) × IsCreated new_goal id t)
      (AllOrNothing tables new_goal)
      (GoalStore.create_goal user new_goal cut_off)
create_goal-atomic_example = create_goal-atomic cut_off user new_goal

Rows-cons :
    {P : Uuid → FocusObjectRow → Type 0} (j : Uuid) (r : FocusObjectRow) (rest : Map FocusObjectRow)
    → P j r
    → Rows rest P
    → Rows ((j, r) ∷ rest) P
Rows-cons {P} j r rest p others k found h = elim (eq-cases k j) [
  | inl same ↦ subst (λ i. P i found) (sym same) (subst (P j) (here same) p)
  | inr differ ↦ others k found (ground arith)
]
  where
    here : k ≡ j → r ≡ found
    here same = ground arith

every :
    (P : Uuid → FocusObjectRow → Type 0)
    → P 1 (row 1 none)
    → P 2 (row 2 (some 1))
    → P 3 (row 3 none)
    → Rows tables.focus_object P
every P p q r =
    Rows-cons 1 (row 1 none) ((2, row 2 (some 1)) ∷ (3, row 3 none) ∷ []) p
      (Rows-cons 2 (row 2 (some 1)) ((3, row 3 none) ∷ []) q (Rows-cons 3 (row 3 none) [] r no_row))
  where
    no_row : Rows [] P
    no_row k found h = absurd (none_some h)
      where
        none_some : ¬ (none ≡ some found)
        none_some e = cc

pub tables-IsSound : IsSound tables
unfolding focus_checks
tables-IsSound = record {
  integral = record {
    focus_ids = every _ refl refl refl;
    parents = every _ tt (λ gone. cc) tt;
    goal_ids = λ k row h. cc;
    owners = λ k row h. cc;
    links = tt;
    specifications = λ k row h. cc;
    event_foci = λ k row h. cc;
    event_goals = λ k row h. cc;
  };
  forest = subst IsForest (fun_ext same_hierarchy) twin-IsForest;
  finished = every _ refl refl refl;
  focus_checked = every _ refl refl refl;
  goal_checked = λ k row h. cc;
}

pub twin-IsValid : IsValid twin
twin-IsValid = record {
  focus_keys = (refl, (refl, (refl, tt)));
  goal_keys = tt;
  focus_ids = λ k f e. ground arith;
  goal_ids = λ k g e. cc;
  forest = twin-IsForest;
  owners = λ k g e gone. cc;
}
