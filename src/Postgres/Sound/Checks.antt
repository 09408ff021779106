-- ===== src/Postgres/Sound/Checks.antt =====
-- What UpdateFocus knows behind its checks and its assignments.
use focus_flow.Common.{
  if◌then◌else◌, ◌≡◌, subst, Bool, true, false, none, some, Option, is_some, or_keep,
}
use focus_flow.Model.{Uuid, Time, FocusFields, FocusStatus, UpdateFocus}
use focus_flow.Postgres.Sql.{Tables, pure}
use focus_flow.Postgres.Sql.Keeps.{Keeps-now, Triple, Triple-pure, Triple-bind, Triple-mono}
use focus_flow.Postgres.FocusStore.{check_new_parent, check_parent, new_finished_at}
use focus_flow.Postgres.FocusStore.Move.{Found, Movable, ensure_can_move_focus-Movable}
use focus_flow.Postgres.Sound.{IsSound, is_terminal}
use focus_flow.Postgres.Sound.Focuses.{finished_at_for_status_lem}

-- What holds behind the read of the focus.
abbrev pub Current : Uuid → FocusFields → Tables → Type 0
Current id current t = IsSound t × Found id current t

-- The new parent, if one is set, exists and is not below the focus.
abbrev pub Checked : UpdateFocus → Tables → Type 0
Checked input t =
    input.parent_id.set ≡ true → (p : Uuid) → input.parent_id.value ≡ some p → Movable input.id p t

pub check_parent-Checked :
    (input : UpdateFocus) (current : FocusFields)
    → Triple
        (Current input.id current)
        (check_parent input)
        (λ _ t. Current input.id current t × Checked input t)
        (Current input.id current)
unfolding check_parent
check_parent-Checked input current = go input.parent_id.set input.parent_id.value
  where
    go :
        (set : Bool) (value : Option Uuid)
        → Triple
            (Current input.id current)
            (if set then check_new_parent input.id value else pure tt)
            (λ _ t.
              Current input.id current t
              × (set ≡ true → (p : Uuid) → value ≡ some p → Movable input.id p t))
            (Current input.id current)
    go false value = Triple-pure tt (λ t h. (h, λ e. cc))
    go true none = Triple-pure tt (λ t h. (h, λ e p q. cc))
    go true (some parent) =
        Triple-mono _ (λ t h. h)
          (λ a t (h, m). (h, λ e p q. subst (λ x. Movable input.id x t) (given p q) m)) (λ t h. h)
          (ensure_can_move_focus-Movable (Current input.id current) input.id parent
            (λ t h. h.0.forest))
      where
        given : (p : Uuid) → some parent ≡ some p → parent ≡ p
        given p q = cc

-- The time that the focus will have been finished at agrees with its new status.
abbrev pub Agrees : UpdateFocus → FocusFields → Option Time → Type 0
Agrees input current finished = is_some finished ≡ is_terminal (or_keep input.status current.status)

pub new_finished_at-Agrees :
    {P : Tables → Type 0} (status : Option FocusStatus) (current : FocusFields)
    → ((t : Tables) → P t → is_some current.finished_at ≡ is_terminal current.status)
    → Triple P
        (new_finished_at status current.finished_at)
        (λ finished t. P t × (is_some finished ≡ is_terminal (or_keep status current.status)))
        P
unfolding new_finished_at
new_finished_at-Agrees none current h = Triple-pure _ (λ t p. (p, h t p))
new_finished_at-Agrees (some status) current h =
    Triple-bind _ _ Keeps-now λ at. Triple-pure _ (λ t p. (p, finished_at_for_status_lem status at))
