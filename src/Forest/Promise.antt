-- ===== src/Forest/Promise.antt =====
-- What a store of focuses promises of its hierarchy, whatever holds it: an abstract machine whose
-- states are hierarchies, and what it answers.
use focus_flow.Common.{ℕ, ◌≡◌, refl, sym, ◌∙◌, inl, inr, Option, none, some, eq-cases, subst}
use focus_flow.Storage.{Outcome, ok, err, not_found, invalid_hierarchy}
use focus_flow.Forest.{Parents, Below}
use focus_flow.Forest.Change.{Prunes, Reparents}

-- A move of an object under a parent, and the removal of an object with what lies below it.
pub data Request : Type 0 where
  move : ℕ → ℕ → Request
  remove : ℕ → Request

-- `Step up request outcome up'`: from `up` the request is answered with the outcome, and leaves `up'`.
pub data Step (up : Parents) : Request → Outcome (Unit {0}) → Parents → Type 0 where
  no_object : {id p : ℕ} → up id ≡ none → Step up (move id p) (err not_found) up
  into_itself :
      {id p : ℕ} → ¬ (up id ≡ none) → Below up id p → Step up (move id p) (err invalid_hierarchy) up
  no_parent :
      {id p : ℕ}
      → ¬ (up id ≡ none)
      → ¬ Below up id p
      → up p ≡ none
      → Step up (move id p) (err not_found) up
  moved :
      {id p : ℕ} {up' : Parents}
      → ¬ (up id ≡ none)
      → ¬ Below up id p
      → ¬ (up p ≡ none)
      → Reparents up id (some p) up'
      → Step up (move id p) (ok tt) up'
  nothing_there : {id : ℕ} → up id ≡ none → Step up (remove id) (err not_found) up
  removed :
      {id : ℕ} {up' : Parents}
      → ¬ (up id ≡ none)
      → Prunes up id up'
      → Step up (remove id) (ok tt) up'

-- Two answers and hierarchies are the same.
abbrev pub Same : Outcome (Unit {0}) → Parents → Outcome (Unit {0}) → Parents → Type 0
Same o up o' up' = (o ≡ o') × ((x : ℕ) → up x ≡ up' x)

module _ {up : Parents} where
  same_move :
      {id : ℕ} {q : Option ℕ} {up' up'' : Parents}
      → Reparents up id q up'
      → Reparents up id q up''
      → (x : ℕ) → up' x ≡ up'' x
  same_move {id} {q} {up'} {up''} h k x = elim (eq-cases x id) [
    | inl same ↦ subst (λ z. up' z ≡ up'' z) (sym same) (h.here ∙ sym k.here)
    | inr differ ↦ h.elsewhere x differ ∙ sym (k.elsewhere x differ)
  ]

  same_removal :
      {id : ℕ} {up' up'' : Parents}
      → Prunes up id up'
      → Prunes up id up''
      → (x : ℕ) → up' x ≡ up'' x
  same_removal h k x = elim (h x) [
    | inl (b, gone) ↦ elim (k x) [
      | inl (c, gone') ↦ gone ∙ sym gone'
      | inr (out, same) ↦ absurd (out b)
    ]
    | inr (out, same) ↦ elim (k x) [
      | inl (c, gone) ↦ absurd (out c)
      | inr (_, same') ↦ same ∙ sym same'
    ]
  ]

  -- The machine is deterministic.
  pub Step-Same :
      {r : Request} {o o' : Outcome (Unit {0})} {up' up'' : Parents}
      → Step up r o up'
      → Step up r o' up''
      → Same o up' o' up''
  Step-Same (no_object h) (no_object k) = (refl, λ x. refl)
  Step-Same (no_object h) (into_itself k b) = absurd (k h)
  Step-Same (no_object h) (no_parent k out gone) = absurd (k h)
  Step-Same (no_object h) (moved k out there e) = absurd (k h)
  Step-Same (into_itself h b) (no_object k) = absurd (h k)
  Step-Same (into_itself h b) (into_itself k c) = (refl, λ x. refl)
  Step-Same (into_itself h b) (no_parent k out gone) = absurd (out b)
  Step-Same (into_itself h b) (moved k out there e) = absurd (out b)
  Step-Same (no_parent h out gone) (no_object k) = absurd (h k)
  Step-Same (no_parent h out gone) (into_itself k b) = absurd (out b)
  Step-Same (no_parent h out gone) (no_parent k _ _) = (refl, λ x. refl)
  Step-Same (no_parent h out gone) (moved k _ there e) = absurd (there gone)
  Step-Same (moved h out there e) (no_object k) = absurd (h k)
  Step-Same (moved h out there e) (into_itself k b) = absurd (out b)
  Step-Same (moved h out there e) (no_parent k _ gone) = absurd (there gone)
  Step-Same (moved h out there e) (moved k _ _ f) = (refl, same_move e f)
  Step-Same (nothing_there h) (nothing_there k) = (refl, λ x. refl)
  Step-Same (nothing_there h) (removed k p) = absurd (k h)
  Step-Same (removed h p) (nothing_there k) = absurd (h k)
  Step-Same (removed h p) (removed k p') = (refl, same_removal p p')
