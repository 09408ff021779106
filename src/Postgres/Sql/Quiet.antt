-- ===== src/Postgres/Sql/Quiet.antt =====
-- Runs without faults.
use focus_flow.Common.{ℕ, ◌≡◌, ap, none}
use focus_flow.Storage.{Error}
use focus_flow.Postgres.Sql.{
  Tables, Outside, Db, SqlError, Statement, tick, answer, executed, statement,
}

-- No statement fails for a reason outside.
abbrev pub Quiet : Db → Type 0
Quiet db = (n : ℕ) → db.outside.faults n ≡ none

pub statement-Quiet :
    {A : Type 0} (errors : SqlError → Error) (run : Statement A) (db : Db)
    → Quiet db
    → statement errors run db
      ≡ (answer errors (run db.tables).0, record (tick db) { tables = (run db.tables).1 })
unfolding statement
statement-Quiet errors run db quiet = ap (λ o. executed errors run o db) (quiet db.ticks)

-- The next statement of a call, on the tables as they are by then.
abbrev pub resume : Tables → ℕ → Outside → Db
resume t n outside = record { tables = t; ticks = n; outside = outside }
