-- ===== src/Tests/Histories.antt =====
-- Runs of the PostgreSQL store, beside the store in memory and behind the API.
use focus_flow.Common.{◌+◌, refl, none, some, []}
use focus_flow.Model.{move_focus, CreateFocus, done}
use focus_flow.Fake.Valid.{parents}
use focus_flow.Forest.Promise.{move, remove, Step, Same}
use focus_flow.Fake.Calls
use focus_flow.Fake.Calls.Promise.{call_of, run-Step}
use focus_flow.Postgres.Calls.Promise.{run_quiet-Step}
use focus_flow.Postgres.Calls.Agree.{stores_agree}
use focus_flow.Fake.Calls.{create_flow, create_focus, update_focus}
use focus_flow.Postgres.Sql.{Tables, Db}
use focus_flow.Postgres.Descent.{hierarchy}
use focus_flow.Postgres.Sound.{IsSound}
use focus_flow.Postgres.Calls.{run, no_rows_yet, start, next}
use focus_flow.Postgres.Calls.History.{Reach-IsSound}
use focus_flow.Tests.Sample.{text, user, env}
use focus_flow.Tests.Codecs.{parse_text}
use focus_flow.Tests.Rows.{
  tables, calm, lost_at, db, twin, same_hierarchy, tables-IsSound, twin-IsValid,
}

abbrev flow : CreateFocus
flow = record {
  parent_id = none;
  name = "flow";
  status = some done;
  tags = [];
  description = none;
  feedback = none;
  color = none;
}

-- A flow, a focus below it, a goal of the flow, and a move that is refused.
abbrev first_tables : Tables
first_tables =
    (run text parse_text user (create_flow flow)
      (record { tables = no_rows_yet; ticks = 0; outside = calm })).1.tables

abbrev second_tables : Tables
second_tables =
    (run text parse_text user (create_focus (record flow { parent_id = some 100 })) (record {
      tables = first_tables;
      ticks = 0;
      outside = record calm { ids = λ n. 200 + n };
    })).1.tables

abbrev third_tables : Tables
third_tables =
    (run text parse_text user (update_focus (move_focus 100 200)) (record {
      tables = second_tables;
      ticks = 0;
      outside = record calm { ids = λ n. 300 + n };
    })).1.tables

Reach-IsSound_example : IsSound third_tables
Reach-IsSound_example = Reach-IsSound text parse_text user third_tables (
    next
      (next (next start calm (create_flow flow)) (record calm { ids = λ n. 200 + n })
        (create_focus (record flow { parent_id = some 100 })))
      (record calm { ids = λ n. 300 + n }) (update_focus (move_focus 100 200)))

run-Step_example :
    Step
      (parents twin.focuses)
      (move 3 2)
      (Calls.run text user env (call_of (move 3 2)) twin).0
      (parents (Calls.run text user env (call_of (move 3 2)) twin).1.focuses)
run-Step_example = run-Step text user env (move 3 2) twin twin-IsValid

run_quiet-Step_example :
    Step
      (hierarchy tables.focus_object)
      (move 3 2)
      (run text parse_text user (call_of (move 3 2)) db).0
      (hierarchy (run text parse_text user (call_of (move 3 2)) db).1.tables.focus_object)
run_quiet-Step_example =
    run_quiet-Step text parse_text user (move 3 2) db tables-IsSound (λ n. refl) (λ n. refl)

stores_agree_example :
    Same
      (Calls.run text user env (call_of (remove 1)) twin).0
      (parents (Calls.run text user env (call_of (remove 1)) twin).1.focuses)
      (run text parse_text user (call_of (remove 1)) db).0
      (hierarchy (run text parse_text user (call_of (remove 1)) db).1.tables.focus_object)
stores_agree_example =
    stores_agree text parse_text user env (remove 1) twin db same_hierarchy twin-IsValid
      tables-IsSound (λ n. refl) (λ n. refl)

-- The event of the deletion is lost.
abbrev without_event : Db
without_event = record { tables = tables; ticks = 0; outside = lost_at 3 }
