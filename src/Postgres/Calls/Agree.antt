-- ===== src/Postgres/Calls/Agree.antt =====
-- The two stores answer the same moves and deletions alike.
use focus_flow.Common.{sym, subst, fun_ext, String, Option}
use focus_flow.Forest.Promise.{Request, Step, Same, Step-Same}
use focus_flow.Model.{Uuid}
use focus_flow.Fake.State.{Store, Env}
use focus_flow.Fake.Valid.{parents, IsValid}
use focus_flow.Fake.Calls
use focus_flow.Fake.Calls.Promise.{call_of, run-Step}
use focus_flow.Postgres.Sql.{Db}
use focus_flow.Postgres.Sql.Quiet.{Quiet}
use focus_flow.Postgres.Descent.{hierarchy}
use focus_flow.Postgres.Sound.{IsSound}
use focus_flow.Postgres.FocusStore.Verdict.{SameHierarchy}
use focus_flow.Postgres.Calls.{run}
use focus_flow.Postgres.Calls.Runs.{FreshEvents}
use focus_flow.Postgres.Calls.Promise.{run_quiet-Step}

-- If the store in memory is well formed, the tables are sound, both hold the same hierarchy, no
-- statement fails and no event has an identifier that may be drawn, then the two stores give the
-- same answer to a move of a focus under a parent and to a deletion, and leave the same
-- hierarchy.
pub stores_agree :
    (id_string : Uuid → String) (parse : String → Option Uuid) (user : Uuid) (env : Env)
    (r : Request) (store : Store) (db : Db)
    → SameHierarchy store db.tables
    → IsValid store
    → IsSound db.tables
    → Quiet db
    → FreshEvents db
    → Same
        (Calls.run id_string user env (call_of r) store).0
        (parents (Calls.run id_string user env (call_of r) store).1.focuses)
        (run id_string parse user (call_of r) db).0
        (hierarchy (run id_string parse user (call_of r) db).1.tables.focus_object)
stores_agree id_string parse user env r store db same valid sound quiet fresh =
    Step-Same (run-Step id_string user env r store valid) (
      subst
        (λ up.
          Step up r (run id_string parse user (call_of r) db).0
            (hierarchy (run id_string parse user (call_of r) db).1.tables.focus_object))
        (sym (fun_ext same)) (run_quiet-Step id_string parse user r db sound quiet fresh))
