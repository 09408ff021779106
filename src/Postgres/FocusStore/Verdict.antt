-- ===== src/Postgres/FocusStore/Verdict.antt =====
-- ensureCanMoveFocus of the PostgreSQL store and ensureCanMoveFocusLocked of the store in memory
-- decide alike.
use focus_flow.Common.{
  ◌≡◌, sym, subst, ◌∙◌, fun_ext, ◌⊎◌, inl, inr, none, arith, lookup, eq-cases, Option-cases,
}
use focus_flow.Storage.{Outcome, ok, err, not_found, invalid_hierarchy}
use focus_flow.Forest.{Parents, Below, IsForest}
use focus_flow.Forest.Order.{Below-self}
use focus_flow.Model.{Uuid}
use focus_flow.Postgres.Sql.{Tables, Db, tick, pure, raise, ◌>>=◌, as_it_is, map_not_found}
use focus_flow.Postgres.Sql.Quiet.{Quiet, statement-Quiet}
use focus_flow.Postgres.Descent.{hierarchy}
use focus_flow.Postgres.Statements.{select_focus, select_below}
use focus_flow.Postgres.GoalStore.{get_focus_base}
use focus_flow.Postgres.FocusStore.{ensure_not_below, ensure_can_move_focus}
use focus_flow.Postgres.FocusStore.Move.{select_below-Answers}
use focus_flow.Fake.State.{Store}
use focus_flow.Fake.Hierarchy.{ensure_can_move}
use focus_flow.Fake.Hierarchy.Descent.{MoveVerdict, ensure_can_move-verdict}
use focus_flow.Fake.Valid.{parents}

-- The verdict on a move, in terms of the hierarchy alone.
abbrev pub Verdict : Parents → Uuid → Uuid → Outcome (Unit {0}) → Type 0
Verdict up id parent result =
    (Below up id parent × (result ≡ err invalid_hierarchy))
    ⊎ ((¬ Below up id parent) × (up parent ≡ none) × (result ≡ err not_found))
    ⊎ ((¬ Below up id parent) × (¬ (up parent ≡ none)) × (result ≡ ok tt))

-- On a forest, without faults, ensureCanMoveFocus refuses a move as an invalid hierarchy exactly if
-- the parent lies in the subtree that moves, as not found exactly if it does not and there is no
-- such parent, and otherwise allows it; the recursive query ends.
pub ensure_can_move_focus-verdict :
    (db : Db) (id parent : Uuid)
    → Quiet db
    → IsForest (hierarchy db.tables.focus_object)
    → Verdict (hierarchy db.tables.focus_object) id parent (ensure_can_move_focus id parent db).0
unfolding ensure_can_move_focus ensure_not_below get_focus_base select_focus ◌>>=◌ pure raise
ensure_can_move_focus-verdict db id parent quiet forest = elim (eq-cases id parent) [
  | inl same ↦ inl (Below-self (sym same), ground arith)
  | inr differ ↦ elim (select_below-Answers db.tables id parent forest differ) [
    | inl (e, b) ↦
        inl (b, ground (arith, statement-Quiet as_it_is (select_below id parent) db quiet))
    | inr (e, out) ↦ elim (Option-cases (lookup parent db.tables.focus_object)) [
      | inl gone ↦ inr (
          inl (
            out,
            ground arith,
            ground (
              arith,
              statement-Quiet as_it_is (select_below id parent) db quiet,
              statement-Quiet map_not_found (select_focus parent) (tick db) quiet,
            ),
          ))
      | inr (row, found) ↦ inr (
          inr (
            out,
            (λ gone. ground arith),
            ground (
              arith,
              statement-Quiet as_it_is (select_below id parent) db quiet,
              statement-Quiet map_not_found (select_focus parent) (tick db) quiet,
            ),
          ))
    ]
  ]
]

-- A verdict depends on the hierarchy alone, and is one of the three.
module _ {up : Parents} {id parent : Uuid} where
  pub Verdict-unique :
      (r s : Outcome (Unit {0})) → Verdict up id parent r → Verdict up id parent s → r ≡ s
  Verdict-unique r s (inl (b, e)) (inl (c, f)) = e ∙ sym f
  Verdict-unique r s (inl (b, e)) (inr (inl (out, there, f))) = absurd (out b)
  Verdict-unique r s (inl (b, e)) (inr (inr (out, there, f))) = absurd (out b)
  Verdict-unique r s (inr (inl (out, there, f))) (inl (b, e)) = absurd (out b)
  Verdict-unique r s (inr (inr (out, there, f))) (inl (b, e)) = absurd (out b)
  Verdict-unique r s (inr (inl (out, gone, e))) (inr (inl (_, _, f))) = e ∙ sym f
  Verdict-unique r s (inr (inl (out, gone, e))) (inr (inr (_, there, f))) = absurd (there gone)
  Verdict-unique r s (inr (inr (out, there, e))) (inr (inl (_, gone, f))) = absurd (there gone)
  Verdict-unique r s (inr (inr (out, there, e))) (inr (inr (_, _, f))) = e ∙ sym f

-- The two stores hold the same hierarchy.
abbrev pub SameHierarchy : Store → Tables → Type 0
SameHierarchy store t = (x : Uuid) → parents store.focuses x ≡ hierarchy t.focus_object x

module _ (store : Store) (t : Tables) (same : SameHierarchy store t) where
  ups : parents store.focuses ≡ hierarchy t.focus_object
  ups = fun_ext same

  of_store :
      (id parent : Uuid) (r : Outcome (Unit {0}))
      → MoveVerdict store id parent r
      → Verdict (parents store.focuses) id parent r
  of_store id parent r (inl h) = inl h
  of_store id parent r (inr (inl (out, gone, e))) = inr (inl (out, ground arith, e))
  of_store id parent r (inr (inr (out, there, e))) =
      inr (inr (out, (λ gone. there (ground arith)), e))

-- If both stores hold the same hierarchy, without a cycle, and no statement fails, then
-- ensureCanMoveFocus of the PostgreSQL store, whose recursive query ends, decides every move as
-- ensureCanMoveFocusLocked of the store in memory does.
pub ensure_can_move_focus-ensure_can_move :
    (store : Store) (db : Db) (id parent : Uuid)
    → SameHierarchy store db.tables
    → IsForest (parents store.focuses)
    → Quiet db
    → (ensure_can_move_focus id parent db).0 ≡ ensure_can_move store id parent
ensure_can_move_focus-ensure_can_move store db id parent same forest quiet =
    Verdict-unique _ _
      (ensure_can_move_focus-verdict db id parent quiet
        (subst IsForest (ups store db.tables same) forest))
      (subst (λ up. Verdict up id parent (ensure_can_move store id parent))
        (ups store db.tables same)
        (of_store store db.tables same id parent _
          (ensure_can_move-verdict store forest id parent)))
