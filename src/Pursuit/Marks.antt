-- ===== src/Pursuit/Marks.antt =====
-- What `Start` of worktracker/work_tracker.go leaves in the table objectives.
use sokratos.Base.{
  ℕ, suc, ◌≡◌, ◌⊎◌, inl, inr, refl, Bool, true, false, ◌||◌, some, List, [], ◌∷◌, ◌==◌,
  if◌then◌else◌, Bool-cases, arith,
}
use sokratos.Objectives.{
  in_progress, Objective, ObjectiveTable, update_rows, update_row, update_status,
  increment_attempts,
}
use sokratos.Pursuit.{StartWrites, mark_pursued}

-- The row in progress, with one attempt more and its time, as far as the updates were taken.
abbrev pub pursued_row : StartWrites → ℕ → Objective → Objective
pursued_row w now g = record g {
  status = if w.status_ok then in_progress else g.status;
  attempts = if w.attempts_ok then suc g.attempts else g.attempts;
  last_pursued = if w.attempts_ok then some now else g.last_pursued;
  updated_at = if w.status_ok || w.attempts_ok then now else g.updated_at;
}

-- The rows of this id are pursued, and every other row is as it was.
abbrev pub AreMarked : StartWrites → ℕ → ℕ → List Objective → List Objective → Type 0
AreMarked w id now [] [] = Unit
AreMarked w id now (g ∷ rows) (h ∷ rows') =
    (((g.id == id ≡ true) × (h ≡ pursued_row w now g)) ⊎ ((g.id == id ≡ false) × (h ≡ g)))
    × AreMarked w id now rows rows'
AreMarked w id now _ _ = ⊥

-- Where there is no objective, which is the id 0, the table is as it was.
abbrev pub IsPursued : StartWrites → ℕ → ℕ → ObjectiveTable → ObjectiveTable → Type 0
IsPursued w id now t t' =
    (t'.next_id ≡ t.next_id)
    × (((id ≡ 0) × (t' ≡ t)) ⊎ ((id == 0 ≡ false) × AreMarked w id now t.rows t'.rows))

abbrev marked_rows : Bool → Bool → ℕ → ℕ → List Objective → List Objective
marked_rows status_ok attempts_ok id now rows =
    let rows' =
      if status_ok
      then update_rows id (λ g. record g { status = in_progress; updated_at = now }) rows
      else rows in
    if attempts_ok
    then update_rows id
        (λ g. record g { attempts = suc g.attempts; last_pursued = some now; updated_at = now })
        rows'
    else rows'

marked_rows-AreMarked :
    (status_ok attempts_ok : Bool) (id now : ℕ) (rows : List Objective)
    → AreMarked
        (record { status_ok = status_ok; attempts_ok = attempts_ok })
        id
        now
        rows
        (marked_rows status_ok attempts_ok id now rows)
unfolding update_rows
marked_rows-AreMarked true true id now [] = tt
marked_rows-AreMarked true false id now [] = tt
marked_rows-AreMarked false true id now [] = tt
marked_rows-AreMarked false false id now [] = tt
marked_rows-AreMarked true true id now (g ∷ rows) = elim (Bool-cases (g.id == id)) [
  | inl e ↦ rw (e, e) (inl (e, refl), marked_rows-AreMarked true true id now rows)
  | inr e ↦ rw (e, e) (inr (e, refl), marked_rows-AreMarked true true id now rows)
]
marked_rows-AreMarked true false id now (g ∷ rows) = elim (Bool-cases (g.id == id)) [
  | inl e ↦ rw e (inl (e, refl), marked_rows-AreMarked true false id now rows)
  | inr e ↦ rw e (inr (e, refl), marked_rows-AreMarked true false id now rows)
]
marked_rows-AreMarked false true id now (g ∷ rows) = elim (Bool-cases (g.id == id)) [
  | inl e ↦ rw e (inl (e, refl), marked_rows-AreMarked false true id now rows)
  | inr e ↦ rw e (inr (e, refl), marked_rows-AreMarked false true id now rows)
]
marked_rows-AreMarked false false id now (g ∷ rows) = elim (Bool-cases (g.id == id)) [
  | inl e ↦ (inl (e, refl), marked_rows-AreMarked false false id now rows)
  | inr e ↦ (inr (e, refl), marked_rows-AreMarked false false id now rows)
]

pub mark_pursued-IsPursued :
    (w : StartWrites) (t : ObjectiveTable) (id now : ℕ)
    → IsPursued w id now t (mark_pursued w t id now)
unfolding mark_pursued update_status increment_attempts update_row
mark_pursued-IsPursued w t id now = elim (Bool-cases (id == 0)) [
  | inl e ↦ rw e (refl, inl (ground arith, refl))
  | inr e ↦ taken w.status_ok w.attempts_ok e
]
  where
    taken :
        (s a : Bool)
        → id == 0 ≡ false
        → IsPursued
            (record { status_ok = s; attempts_ok = a })
            id
            now
            t
            (mark_pursued (record { status_ok = s; attempts_ok = a }) t id now)
    taken true true e =
        rw (mark_pursued, e) (refl, inr (refl, marked_rows-AreMarked true true id now t.rows))
    taken true false e =
        rw (mark_pursued, e) (refl, inr (refl, marked_rows-AreMarked true false id now t.rows))
    taken false true e =
        rw (mark_pursued, e) (refl, inr (refl, marked_rows-AreMarked false true id now t.rows))
    taken false false e =
        rw (mark_pursued, e) (refl, inr (refl, marked_rows-AreMarked false false id now t.rows))
