-- ===== src/Postgres/Sql/Keeps/Outcomes.antt =====
-- What holds of the tables behind an action, by its outcome: one rule for each way to build an
-- action.
use focus_flow.Common.{
  ◌≡◌, String, Bool, false, Option, none, some, if◌then◌else◌, Bool-cases, inl, inr,
}
use focus_flow.Storage.{Error, Outcome, ok, err, overflow}
use focus_flow.Postgres.Sql.{
  Tables, Db, SqlError, Reply, reply, fail, endless, Statement, Action, tick, answer, pure, raise,
  statement, guarded, executed, continue, ◌>>=◌, settle, committed, rolled_back, transaction,
  nothing, as_it_is,
}

-- `Q` behind a value, `R` behind an error.
abbrev pub Post : {A : Type 0} → (A → Tables → Type 0) → (Tables → Type 0) → Outcome A × Db → Type 0
Post Q R (ok a, db) = Q a db.tables
Post Q R (err e, db) = R db.tables
Post Q R (overflow, db) = R db.tables

abbrev pub PostReply :
    {A : Type 0} → (A → Tables → Type 0) → (Tables → Type 0) → Reply A × Tables → Type 0
PostReply Q R (reply a, t) = Q a t
PostReply Q R (fail e, t) = R t
PostReply Q R (endless, t) = R t

-- From tables with `P`, the action ends with `Q` of its value, or with `R`.
pub record Triple {A : Type 0} (P : Tables → Type 0) (m : Action A) (Q : A → Tables → Type 0)
    (R : Tables → Type 0) : Type 0 where
  pub at : (db : Db) → P db.tables → Post Q R (m db)

answered :
    {A : Type 0} (Q : A → Tables → Type 0) (R : Tables → Type 0) (errors : SqlError → Error)
    (r : Reply A × Tables) (db : Db)
    → PostReply Q R r
    → Post Q R (answer errors r.0, record (tick db) { tables = r.1 })
answered Q R errors (reply a, t) db h = h
answered Q R errors (fail e, t) db h = h
answered Q R errors (endless, t) db h = h

module _ {A : Type 0} {P : Tables → Type 0} {Q : A → Tables → Type 0} {R : Tables → Type 0} where
  pub Triple-pure : (a : A) → ((t : Tables) → P t → Q a t) → Triple P (pure a) Q R
  unfolding pure
  Triple-pure a h = record { at = λ db p. h db.tables p }

  pub Triple-raise : (e : Error) → ((t : Tables) → P t → R t) → Triple P (raise e) Q R
  unfolding raise
  Triple-raise e h = record { at = λ db p. h db.tables p }

  -- A fault leaves the tables as they are.
  pub Triple-statement :
      (errors : SqlError → Error) (run : Statement A)
      → ((t : Tables) → P t → R t)
      → ((t : Tables) → P t → PostReply Q R (run t))
      → Triple P (statement errors run) Q R
  unfolding statement
  Triple-statement errors run fault h = record {
    at = λ db p. hit db p (db.outside.faults db.ticks);
  }
    where
      hit : (db : Db) → P db.tables → (o : Option String) → Post Q R (executed errors run o db)
      hit db p (some text) = fault db.tables p
      hit db p none = answered Q R errors (run db.tables) db (h db.tables p)

continued :
    {A B : Type 0} (M : A → Tables → Type 0) (Q : B → Tables → Type 0) (R : Tables → Type 0)
    (r : Outcome A × Db) (f : A → Action B)
    → Post M R r
    → ((a : A) → Triple (M a) (f a) Q R)
    → Post Q R (continue r.0 f r.1)
continued M Q R (ok a, db) f h rest = (rest a).at db h
continued M Q R (err e, db) f h rest = h
continued M Q R (overflow, db) f h rest = h

module _ {A B : Type 0} {P R : Tables → Type 0} {M : A → Tables → Type 0}
    {Q : B → Tables → Type 0} where
  pub Triple-bind :
      (m : Action A) (f : A → Action B)
      → Triple P m M R
      → ((a : A) → Triple (M a) (f a) Q R)
      → Triple P (m >>= f) Q R
  unfolding ◌>>=◌
  Triple-bind m f first rest = record { at = λ db p. continued M Q R (m db) f (first.at db p) rest }

module _ {A : Type 0} {P P' : Tables → Type 0} {Q Q' : A → Tables → Type 0}
    {R R' : Tables → Type 0} where
  pub Triple-mono :
      (m : Action A)
      → ((t : Tables) → P' t → P t)
      → ((a : A) (t : Tables) → Q a t → Q' a t)
      → ((t : Tables) → R t → R' t)
      → Triple P m Q R
      → Triple P' m Q' R'
  Triple-mono m pre post error h = record { at = λ db p. weaken (m db) (h.at db (pre db.tables p)) }
    where
      weaken : (r : Outcome A × Db) → Post Q R r → Post Q' R' r
      weaken (ok a, db) k = post a db.tables k
      weaken (err e, db) k = error db.tables k
      weaken (overflow, db) k = error db.tables k

pub PostReply-guarded :
    {A : Type 0} (Q : A → Tables → Type 0) (R : Tables → Type 0) (violates : Tables → Bool)
    (code : String) (run : Statement A) (t : Tables)
    → R t
    → (violates t ≡ false → PostReply Q R (run t))
    → PostReply Q R (guarded violates code run t)
unfolding guarded
PostReply-guarded Q R violates code run t r passed = elim (Bool-cases (violates t)) [
  | inl bad ↦ rw (bad, if◌then◌else◌) r
  | inr good ↦ rw (good, if◌then◌else◌) (passed good)
]

pub replied :
    {A : Type 0} (P : Tables → Type 0) (r : Reply A × Tables) → P r.1 → PostReply (λ _. P) P r
replied P (reply a, t) p = p
replied P (fail e, t) p = p
replied P (endless, t) p = p

settled :
    {A : Type 0} (P : Tables → Type 0) (Q : A → Tables → Type 0) (R : Tables → Type 0)
    (before : Tables)
    → P before
    → ((t : Tables) → P t → R t)
    → (r : Outcome A × Db) → Post Q (λ t. Unit) r
    → Post Q R (settle before r)
settled P Q R before p fault (ok a, db) h = h
settled P Q R before p fault (err e, db) h = fault before p
settled P Q R before p fault (overflow, db) h = fault before p

-- A transaction that fails, in its statements or at Commit, leaves what was there at Begin.
module _ {A : Type 0} {P : Tables → Type 0} {Q : A → Tables → Type 0} {R : Tables → Type 0} where
  pub Triple-transaction :
      (body : Action A)
      → ((t : Tables) → P t → R t)
      → Triple P body Q (λ t. Unit)
      → Triple P (transaction body) Q R
  unfolding transaction rolled_back committed
  Triple-transaction body fault h =
      Triple-bind _ _ (Triple-statement as_it_is nothing fault (λ t p. p)) λ _. record {
        at = λ db p. settled P Q R db.tables p fault (committed body db) (finished.at db p);
      }
    where
      finished : Triple P (committed body) Q (λ t. Unit)
      finished = Triple-bind body _ h λ a.
          Triple-bind _ _ (Triple-statement as_it_is nothing (λ t q. tt) (λ t q. q))
            λ _. Triple-pure a (λ t q. q)
