-- ===== src/Postgres/Sql/Gives.antt =====
-- Reads without faults: what an action gives on tables that it leaves as they are.
use focus_flow.Common.{ℕ, ◌+◌, ◌≡◌, refl, none, List, [], ◌∷◌, map}
use focus_flow.Storage.{Error, ok}
use focus_flow.Postgres.Sql.{
  Tables, Outside, SqlError, reply, Statement, Action, pure, statement, ◌>>=◌, each,
}
use focus_flow.Postgres.Sql.Quiet.{statement-Quiet, resume}

module _ (t : Tables) (o : Outside) where
  -- The action gives the value, and leaves the tables.
  abbrev pub Gives : {A : Type 0} → Action A → A → Type 0
  Gives m a = (n : ℕ) → (k : ℕ) × (m (resume t n o) ≡ (ok a, resume t k o))

module _ {t : Tables} {o : Outside} where
  pub Gives-pure : {A : Type 0} (a : A) → Gives t o (pure a) a
  unfolding pure
  Gives-pure a n = (n, refl)

  pub Gives-statement :
      {A : Type 0} (errors : SqlError → Error) (run : Statement A) (a : A)
      → ((n : ℕ) → o.faults n ≡ none)
      → run t ≡ (reply a, t)
      → Gives t o (statement errors run) a
  Gives-statement errors run a quiet reads n =
      (n + 1, rw (statement-Quiet errors run (resume t n o) quiet, reads) refl)

  pub Gives-bind :
      {A B : Type 0} (m : Action A) (f : A → Action B) (a : A) (b : B)
      → Gives t o m a
      → Gives t o (f a) b
      → Gives t o (m >>= f) b
  unfolding ◌>>=◌
  Gives-bind m f a b first second n = let (k, e) = first n in let (j, d) = second k in (j, rw e d)

  pub Gives-each :
      {A B : Type 0} (f : A → Action B) (g : A → B)
      → ((x : A) → Gives t o (f x) (g x))
      → (xs : List A) → Gives t o (each f xs) (map g xs)
  unfolding each
  Gives-each f g h [] = Gives-pure []
  Gives-each f g h (x ∷ xs) =
      Gives-bind _ _ (g x) _ (h x)
        (Gives-bind _ _ (map g xs) _ (Gives-each f g h xs) (Gives-pure (g x ∷ map g xs)))
