-- ===== src/Postgres/Sql/Keeps.antt =====
-- Invariants of actions on the tables, one rule for each way to build an action.
mod Outcomes
pub use Outcomes.*
use focus_flow.Common.{
  ◌≡◌, String, Bool, true, false, Option, none, some, List, [], ◌∷◌, if◌then◌else◌, Bool-cases, inl,
  inr,
}
use focus_flow.Storage.{Error, Outcome, ok, err, overflow}
use focus_flow.Postgres.Sql.{
  Tables, Db, SqlError, Reply, reply, fail, endless, Statement, Action, tick, answer, pure, raise,
  statement, guarded, executed, continue, ◌>>=◌, new_id, now, each, settle, committed, rolled_back,
  transaction, nothing, as_it_is,
}

-- The action keeps a property of the tables, whatever its outcome.
abbrev pub Keeps : {A : Type 0} → (Tables → Type 0) → Action A → Type 0
Keeps P m = Triple P m (λ _. P) P

-- A statement behind a constraint.
pub kept-guarded :
    {A : Type 0} (P : Tables → Type 0) (violates : Tables → Bool) (code : String)
    (run : Statement A) (t : Tables)
    → P t
    → (violates t ≡ false → P (run t).1)
    → P (guarded violates code run t).1
unfolding guarded
kept-guarded P violates code run t p passed = elim (Bool-cases (violates t)) [
  | inl bad ↦ rw (bad, if◌then◌else◌) p
  | inr good ↦ rw (good, if◌then◌else◌) (passed good)
]

module _ {P : Tables → Type 0} where
  -- A statement keeps what its run keeps.
  pub Keeps-statement :
      {A : Type 0} (errors : SqlError → Error) (run : Statement A)
      → ((t : Tables) → P t → P (run t).1)
      → Keeps P (statement errors run)
  Keeps-statement errors run h =
      Triple-statement errors run (λ t p. p) λ t p. replied P (run t) (h t p)

  pub Keeps-new_id : Keeps P new_id
  unfolding new_id
  Keeps-new_id = record { at = λ db p. p }

  pub Keeps-now : Keeps P now
  unfolding now
  Keeps-now = record { at = λ db p. p }

  pub Keeps-pure : {A : Type 0} (a : A) → Keeps P (pure a)
  Keeps-pure a = Triple-pure a (λ t p. p)

  pub Keeps-raise : {A : Type 0} (e : Error) → Keeps P (raise {A = A} e)
  Keeps-raise e = Triple-raise e (λ t p. p)

  pub Keeps-bind :
      {A B : Type 0} (m : Action A) (f : A → Action B)
      → Keeps P m
      → ((a : A) → Keeps P (f a))
      → Keeps P (m >>= f)
  Keeps-bind m f = Triple-bind m f

  pub Keeps-if :
      {A : Type 0} (b : Bool) (m n : Action A)
      → Keeps P m
      → Keeps P n
      → Keeps P (if b then m else n)
  Keeps-if true m n km kn = km
  Keeps-if false m n km kn = kn

  pub Keeps-each :
      {A B : Type 0} (f : A → Action B) (xs : List A)
      → ((x : A) → Keeps P (f x))
      → Keeps P (each f xs)
  unfolding each
  Keeps-each f [] h = Keeps-pure []
  Keeps-each f (x ∷ xs) h =
      Keeps-bind _ _ (h x) λ y. Keeps-bind _ _ (Keeps-each f xs h) λ ys. Keeps-pure (y ∷ ys)

pub ruleset keeps_rules = (
  Keeps-new_id, Keeps-now, Keeps-pure, Keeps-raise, Keeps-if, Keeps-each, Keeps-bind,
  Keeps-statement,
)

either_way :
    {A : Type 0} (P : Tables → Type 0) (r : Outcome A × Db) → Post (λ _. P) P r → P r.1.tables
either_way P (ok a, db) h = h
either_way P (err e, db) h = h
either_way P (overflow, db) h = h

pub Keeps-tables :
    {A : Type 0} {P : Tables → Type 0} (m : Action A)
    → Keeps P m
    → (db : Db) → P db.tables
    → P (m db).1.tables
Keeps-tables {P} m h db p = either_way P (m db) (h.at db p)
