-- ===== src/Postgres/FocusStore/Move.antt =====
-- ensureCanMoveFocus: what it decides on a forest, and that it decides what the store in memory does.
use focus_flow.Common.{
  ℕ, ◌==◌, ◌≡◌, refl, sym, ap, ◌⊎◌, inl, inr, Bool, true, false, none, some, Option, [], ◌∷◌, arith,
  Map, lookup, length, member, eq-cases,
}
use focus_flow.Forest.{Below, under, IsForest}
use focus_flow.Forest.Order.{Below-cases, Below-trans, Below-self, Rooted-parent}
use focus_flow.Model.{Uuid, FocusFields}
use focus_flow.Postgres.{FocusObjectRow, focus_from_row}
use focus_flow.Postgres.Sql.{Tables, Reply, reply, as_it_is, map_not_found}
use focus_flow.Postgres.Sql.Keeps.{
  Triple, PostReply, Triple-pure, Triple-raise, Triple-statement, Triple-bind, Triple-mono,
}
use focus_flow.Postgres.Descent.{hierarchy, children_of}
use focus_flow.Postgres.Descent.Members.{member-children_of, children_of-member}
use focus_flow.Postgres.Descent.Search.{Reached, Deep, exists_below-Finds}
use focus_flow.Postgres.Statements.{select_focus, one_row, select_below, found_below}
use focus_flow.Postgres.GoalStore.{get_focus_base}
use focus_flow.Postgres.FocusStore.{ensure_not_below, ensure_can_move_focus, refuse_if}
use focus_flow.Postgres.Sound.{Has}

module _ (rows : Map FocusObjectRow) (id target : Uuid) where
  only : (p : Uuid) → member p (id ∷ []) ≡ true → p ≡ id
  only p m = ground arith

  Deep-children : IsForest (hierarchy rows) → Deep rows target 1 (children_of (id ∷ []) rows)
  Deep-children forest c m =
      let (p, h, l) = children_of-member (id ∷ []) rows c m in
      let (d, r) = forest c (some p) h in
      let (e, same, above) = Rooted-parent r h in (d, r, omega arith)

  Reached-Below :
      Reached rows target (children_of (id ∷ []) rows) → Below (hierarchy rows) id target
  Reached-Below (c, m, b) =
      let (p, h, l) = children_of-member (id ∷ []) rows c m in
      Below-trans (under p h (Below-self (only p l))) b

  Below-Reached :
      ¬ (id ≡ target)
      → Below (hierarchy rows) id target
      → Reached rows target (children_of (id ∷ []) rows)
  Below-Reached differ b = elim (Below-cases b) [
    | inl same ↦ absurd (differ (sym same))
    | inr (c, h, k) ↦ (c, member-children_of (id ∷ []) rows c id h (ground arith), k)
  ]

-- The recursive query on a forest finds exactly the objects below, and ends.
abbrev pub Answers : Tables → Uuid → Uuid → Reply Bool × Tables → Type 0
Answers t id target r =
    ((r ≡ (reply true, t)) × Below (hierarchy t.focus_object) id target)
    ⊎ ((r ≡ (reply false, t)) × (¬ Below (hierarchy t.focus_object) id target))

pub select_below-Answers :
    (t : Tables) (id target : Uuid)
    → IsForest (hierarchy t.focus_object)
    → ¬ (id ≡ target)
    → Answers t id target (select_below id target t)
unfolding select_below
select_below-Answers t id target forest differ =
    elim (exists_below-Finds t.focus_object target (length t.focus_object) 1
      (children_of (id ∷ []) t.focus_object) (Deep-children t.focus_object id target forest)
      (omega arith)) [
        | inl (e, reached) ↦
            inl (ap (λ r. (found_below r, t)) e, Reached-Below t.focus_object id target reached)
        | inr (e, out) ↦ inr (
          ap (λ r. (found_below r, t)) e,
          λ b. out (Below-Reached t.focus_object id target differ b),
        )
      ]

-- The row that a read of one focus found.
abbrev pub Found : Uuid → FocusFields → Tables → Type 0
Found id focus t =
    (row : FocusObjectRow) × (lookup id t.focus_object ≡ some row) × (focus ≡ focus_from_row row)

-- A move that ensureCanMoveFocus allows is one to an object that exists and is not below.
abbrev pub Movable : Uuid → Uuid → Tables → Type 0
Movable id parent t = (¬ Below (hierarchy t.focus_object) id parent) × Has t.focus_object parent

==_true : (a b : ℕ) → a ≡ b → (a == b) ≡ true
==_true a b h = ground arith

==_false : (a b : ℕ) → ¬ (a ≡ b) → (a == b) ≡ false
==_false a b h = ground arith

module _ (P : Tables → Type 0) where
  select_focus-row :
      (id : Uuid) (t : Tables) (o : Option FocusObjectRow)
      → lookup id t.focus_object ≡ o
      → P t
      → PostReply (λ row t. P t × (lookup id t.focus_object ≡ some row)) P (one_row o, t)
  select_focus-row id t none h p = p
  select_focus-row id t (some row) h p = (p, h)

  pub get_focus_base-Found :
      (id : Uuid) → Triple P (get_focus_base id) (λ focus t. P t × Found id focus t) P
  unfolding get_focus_base select_focus
  get_focus_base-Found id =
      Triple-bind _ _
        (Triple-statement map_not_found (select_focus id) (λ t p. p)
          (λ t p. select_focus-row id t (lookup id t.focus_object) refl p))
        λ row. Triple-pure _ (λ t (p, h). (p, (row, h, refl)))

module _ (P : Tables → Type 0) where
  refused :
      (t : Tables) (id parent : Uuid) (r : Reply Bool × Tables)
      → Answers t id parent r
      → P t
      → PostReply
          (λ found t. P t × ((found ≡ false) → ¬ Below (hierarchy t.focus_object) id parent))
          P
          r
  refused t id parent r (inl (e, b)) p = rw (e, PostReply) (p, λ f. cc)
  refused t id parent r (inr (e, out)) p = rw (e, PostReply) (p, λ f. out)

  -- Whatever faults happen, ensureCanMoveFocus ends without an error only if the move is allowed.
  pub ensure_can_move_focus-Movable :
      (id parent : Uuid)
      → ((t : Tables) → P t → IsForest (hierarchy t.focus_object))
      → Triple P (ensure_can_move_focus id parent) (λ _ t. P t × Movable id parent t) P
  unfolding ensure_can_move_focus ensure_not_below
  ensure_can_move_focus-Movable id parent forest = elim (eq-cases id parent) [
    | inl same ↦ rw (==_true id parent same) (Triple-raise _ (λ t p. p))
    | inr differ ↦ rw (==_false id parent differ) (behind differ)
  ]
    where
      Outside : Tables → Type 0
      Outside t = P t × (¬ Below (hierarchy t.focus_object) id parent)

      refuse :
          (found : Bool)
          → Triple
              (λ t. P t × ((found ≡ false) → ¬ Below (hierarchy t.focus_object) id parent))
              (refuse_if found)
              (λ _. Outside)
              P
      refuse true = Triple-raise _ (λ t p. p.0)
      refuse false = Triple-pure tt (λ t p. (p.0, p.1 refl))

      behind :
          ¬ (id ≡ parent)
          → Triple P (ensure_not_below id parent) (λ _ t. P t × Movable id parent t) P
      behind differ =
          Triple-bind _ _
            (Triple-statement as_it_is (select_below id parent) (λ t p. p)
              (λ t p.
                refused t id parent _ (select_below-Answers t id parent (forest t p) differ) p))
            λ found. Triple-bind _ _ (refuse found) λ _.
              Triple-bind _ _
                (Triple-mono _ (λ t p. p) (λ a t p. p) (λ t p. p.0)
                  (get_focus_base-Found Outside parent))
                λ focus. Triple-pure tt λ t ((p, out), (row, h, e)). (p, (out, λ gone. cc))
