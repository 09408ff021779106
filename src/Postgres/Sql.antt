-- ===== src/Postgres/Sql.antt =====
-- backend/internal/storage/postgres: the state behind the pool, the statements that a method runs
-- on it, and the errors that they return.
--
-- A method is an action: what it wrote before an error stays written. A statement either fails
-- without an effect (a lost connection, a cancelled context), as the sequence of faults says, or
-- does on the tables what its SQL text says. The identifiers that `newID` draws, the times of
-- `store.now` and of the database, and the faults are sequences, read at a counter of what the
-- methods have drawn and run.
pub mod Keeps
pub mod Quiet
pub mod Gives
use focus_flow.Common.{
  ℕ, ◌+◌, Bool, String, Option, none, some, List, [], ◌∷◌, Map, str_eq, if◌then◌else◌,
}
use focus_flow.Storage.{Error, Outcome, ok, err, overflow, not_found, other}
use focus_flow.Model.{Uuid, Time}
use focus_flow.Postgres.{FocusObjectRow}
use focus_flow.Postgres.Rows.{FocusGoalRow, FocusGoalLinkRow, FocusSpecificationRow, FocusEventRow}

-- The tables, by their primary keys.
pub record Tables : Type 0 where
  pub focus_object : Map FocusObjectRow
  pub focus_goal : Map FocusGoalRow
  pub focus_goal_link : List FocusGoalLinkRow
  pub focus_specification : Map FocusSpecificationRow
  pub focus_event : Map FocusEventRow

pub record Outside : Type 0 where
  pub ids : ℕ → Uuid
  pub times : ℕ → Time
  pub faults : ℕ → Option String

pub record Db : Type 0 where
  pub tables : Tables
  pub ticks : ℕ
  pub outside : Outside

-- `pgx.ErrNoRows`, a `pgconn.PgError` by its code, and any other error, by its text.
pub data SqlError : Type 0 where
  no_rows : SqlError
  violation failed : String → SqlError

-- What a statement returns; `endless` is a recursive query that does not end.
pub data Reply (A : Type 0) : Type 0 where
  reply : A → Reply A
  fail : SqlError → Reply A
  endless : Reply A

abbrev pub Statement : Type 0 → Type 0
Statement A = Tables → Reply A × Tables

abbrev pub Action : Type 0 → Type 0
Action A = Db → Outcome A × Db

abbrev pub foreign_key_violation : String
foreign_key_violation = "23503"

abbrev pub unique_violation : String
unique_violation = "23505"

abbrev pub check_violation : String
check_violation = "23514"

-- An error that a method returns as it is.
abbrev pub as_it_is : SqlError → Error
as_it_is no_rows = other "no rows in result set"
as_it_is (violation code) = other code
as_it_is (failed text) = other text

-- mapNotFound
abbrev pub map_not_found : SqlError → Error
map_not_found no_rows = not_found
map_not_found (violation code) = if str_eq code foreign_key_violation then not_found else other code
map_not_found (failed text) = other text

abbrev pub tick : Db → Db
tick db = record db { ticks = db.ticks + 1 }

abbrev pub answer : {A : Type 0} → (SqlError → Error) → Reply A → Outcome A
answer errors (reply a) = ok a
answer errors (fail e) = err (errors e)
answer errors endless = overflow

module _ {A : Type 0} where
  unfoldable pub pure : A → Action A
  pure a db = (ok a, db)

  unfoldable pub raise : Error → Action A
  raise e db = (err e, db)

  -- A constraint that the statement violates on some tables.
  unfoldable pub guarded : (Tables → Bool) → String → Statement A → Statement A
  guarded violates code run tables =
      if violates tables then (fail (violation code), tables) else run tables

  -- A statement that a fault may hit.
  abbrev pub executed : (SqlError → Error) → Statement A → Option String → Db → Outcome A × Db
  executed errors run (some text) db = (err (errors (failed text)), tick db)
  executed errors run none db =
      let (r, tables) = run db.tables in (answer errors r, record (tick db) { tables = tables })

  -- One statement, with what the method makes of its error.
  unfoldable pub statement : (SqlError → Error) → Statement A → Action A
  statement errors run db = executed errors run (db.outside.faults db.ticks) db

module _ {A B : Type 0} where
  abbrev pub continue : Outcome A → (A → Action B) → Action B
  continue (ok a) f db = f a db
  continue (err e) f db = (err e, db)
  continue overflow f db = (overflow, db)

  infixl 10 ◌>>=◌ ◌>>◌
  unfoldable pub ◌>>=◌ : Action A → (A → Action B) → Action B
  ◌>>=◌ m f db = let (r, db') = m db in continue r f db'

  abbrev pub ◌>>◌ : Action A → Action B → Action B
  m >> n = m >>= λ _. n

unfoldable pub new_id : Action Uuid
new_id db = (ok (db.outside.ids db.ticks), tick db)

unfoldable pub now : Action Time
now db = (ok (db.outside.times db.ticks), tick db)

-- A loop that stops at the first error.
unfoldable pub each : {A B : Type 0} → (A → Action B) → List A → Action (List B)
each f [] = pure []
each f (x ∷ xs) = do y ← f x; ys ← each f xs; pure (y ∷ ys)

abbrev nothing : Statement (Unit {0})
nothing tables = (reply tt, tables)

-- The deferred Rollback undoes what was written since Begin, unless Commit came first.
abbrev pub settle : {A : Type 0} → Tables → Outcome A × Db → Outcome A × Db
settle before (ok a, db) = (ok a, db)
settle before (err e, db) = (err e, record db { tables = before })
settle before (overflow, db) = (overflow, record db { tables = before })

unfoldable pub committed : {A : Type 0} → Action A → Action A
committed body = do a ← body; statement as_it_is nothing; pure a

unfoldable pub rolled_back : {A : Type 0} → Action A → Action A
rolled_back body db = settle db.tables (body db)

-- Begin, the statements of the transaction, and Commit.
unfoldable pub transaction : {A : Type 0} → Action A → Action A
transaction body = do statement as_it_is nothing; rolled_back (committed body)
