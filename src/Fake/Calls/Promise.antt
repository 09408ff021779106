-- ===== src/Fake/Calls/Promise.antt =====
-- The store in memory does what the abstract machine of Forest/Promise promises.
use focus_flow.Common.{
  ◌≡◌, refl, sym, subst, inl, inr, none, some, arith, lookup, Marks, Option-cases, String, List,
}
use focus_flow.Storage.{Outcome, err, not_found}
use focus_flow.Forest.{Below}
use focus_flow.Forest.Change.{Prunes}
use focus_flow.Forest.Promise.{
  Request, move, remove, Step, no_object, into_itself, no_parent, moved, nothing_there, removed,
}
use focus_flow.Model.{Uuid, FocusFields, Focus, move_focus}
use focus_flow.Fake.State.{Store, Env}
use focus_flow.Fake.Focuses
use focus_flow.Fake.Focuses.{updated_focus}
use focus_flow.Fake.Focuses.Update.{
  Effect, refused_cycle, refused_parent, saved, update_focus-cases,
}
use focus_flow.Fake.Focuses.Delete.{Without, delete_focus-cases}
use focus_flow.Fake.Calls.{Call, update_focus, delete_focus, forget, run}
use focus_flow.Fake.Valid.{parents, IsValid}

-- The call that makes a request.
abbrev pub call_of : Request → Call
call_of (move id parent) = update_focus (move_focus id parent)
call_of (remove id) = delete_focus id

-- What a call answers, and the hierarchy that it leaves.
abbrev Answers : Request → Store → Outcome (Unit {0}) × Store → Type 0
Answers r store result = Step (parents store.focuses) r result.0 (parents result.1.focuses)

module _ (store : Store) (v : IsValid store) (id p : Uuid) (env : Env) where
  Effect-Answers :
      (old : FocusFields) (r : Outcome Focus × Store)
      → lookup id store.focuses ≡ some old
      → Effect store (move_focus id p) env old r
      → Answers (move id p) store (forget r)
  Effect-Answers old r found (refused_cycle q m below e) =
      subst (λ x. Answers (move id p) store (forget x)) (sym e)
        (into_itself (λ gone. ground arith)
          (subst (Below (parents store.focuses) id) (named m.1) below))
    where
      named : some p ≡ some q → q ≡ p
      named e = cc
  Effect-Answers old r found (refused_parent q m out missing e) =
      subst (λ x. Answers (move id p) store (forget x)) (sym e)
        (no_parent (λ gone. ground arith)
          (λ below. out (subst (Below (parents store.focuses) id) (named m.1) below))
          (ground arith))
    where
      named : some p ≡ some q → p ≡ q
      named e = cc
  Effect-Answers old r found (saved allowed e same goals) =
      subst (λ o. Answers (move id p) store (forget (o, r.1))) (sym e)
        (moved (λ gone. ground arith) (allowed p (refl, refl)).0
          (λ gone. (allowed p (refl, refl)).1 (ground arith))
          record { here = ground (arith, same id); elsewhere = λ x differ. ground (arith, same x) })

  move-Answers :
      (user : Uuid)
      → Answers (move id p) store (forget (Focuses.update_focus user (move_focus id p) env store))
  move-Answers user = elim (update_focus-cases store v user (move_focus id p) env) [
    | inl (missing, e) ↦
        subst (λ x. Answers (move id p) store (forget x)) (sym e) (no_object (ground arith))
    | inr (old, found, effect) ↦ Effect-Answers old _ found effect
  ]

  Without-Prunes :
      (ds : List Uuid) (after : Store)
      → Marks (Below (parents store.focuses) id) ds
      → Without ds store after
      → Prunes (parents store.focuses) id (parents after.focuses)
  Without-Prunes ds after marks without x = elim (marks x) [
    | inl (b, m) ↦ inl (b, ground (arith, without.focuses x))
    | inr (out, m) ↦ inr (out, ground (arith, without.focuses x))
  ]

  remove_missing :
      (user : Uuid)
      → lookup id store.focuses ≡ none
      → Focuses.delete_focus user id env store ≡ (err not_found, store)
  unfolding Focuses.delete_focus
  remove_missing user missing = ground arith

  remove-Answers :
      (user : Uuid) → Answers (remove id) store (forget (Focuses.delete_focus user id env store))
  remove-Answers user = elim (Option-cases (lookup id store.focuses)) [
    | inl missing ↦
        subst (λ x. Answers (remove id) store (forget x)) (sym (remove_missing user missing))
          (nothing_there (ground arith))
    | inr (f, found) ↦ elim (delete_focus-cases store v user id env) [
      | inl (missing, e) ↦ cc
      | inr (ds, marks, e, without) ↦
          subst
            (λ o.
              Answers (remove id) store (forget (o, (Focuses.delete_focus user id env store).1)))
            (sym e) (removed (λ gone. ground arith) (Without-Prunes ds _ marks without))
    ]
  ]

-- On a well-formed store in memory, UpdateFocus with a move under a parent, and DeleteFocus, do
-- what the abstract machine on hierarchies does: the answers are not found, invalid hierarchy or
-- success as the hierarchy says, a move that succeeds sets the parent and nothing else of the
-- hierarchy, and a deletion that succeeds removes exactly what lies below the focus.
pub run-Step :
    (id_string : Uuid → String) (user : Uuid) (env : Env) (r : Request) (store : Store)
    → IsValid store
    → Step
        (parents store.focuses)
        r
        (run id_string user env (call_of r) store).0
        (parents (run id_string user env (call_of r) store).1.focuses)
unfolding run
run-Step id_string user env (move id p) store v = move-Answers store v id p env user
run-Step id_string user env (remove id) store v = remove-Answers store v id 0 env user
