-- ===== src/Scheduler/Earliest.antt =====
-- Which task engine/scheduler.go takes next.
use sokratos.Base.{
  ℕ, ◌≡◌, ◌⊎◌, inl, inr, refl, sym, subst, Bool, true, false, Option, none, some, List, [], ◌∷◌,
  Elem, All, Bool-cases, arith,
}
use sokratos.WorkItems.{WorkItem}
use sokratos.Scheduler.{is_timed, due_le, earlier, earliest, fetch_next_pending_task}

-- A row that no other of those that `p` selects is due before; nothing, if `p` selects none.
abbrev pub IsEarliest : (WorkItem → Bool) → List WorkItem → Option WorkItem → Type 0
IsEarliest p items none = All (λ j. p j ≡ false) items
IsEarliest p items (some i) =
    Elem i items
    × (p i ≡ true)
    × All (λ (j : WorkItem). (p j ≡ false) ⊎ (due_le i.due_at j.due_at ≡ true)) items

due_le_refl : (d : Option ℕ) → due_le d d ≡ true
due_le_refl none = refl
due_le_refl (some d) = ground arith

due_le_trans : (a b c : Option ℕ) → due_le a b ≡ true → due_le b c ≡ true → due_le a c ≡ true
due_le_trans a b none h k = refl
due_le_trans a none (some c) h k = cc k
due_le_trans none (some b) (some c) h k = cc h
due_le_trans (some a) (some b) (some c) h k = ground arith

due_le_total : (a b : Option ℕ) → due_le a b ≡ false → due_le b a ≡ true
due_le_total a none h = cc h
due_le_total none (some b) h = refl
due_le_total (some a) (some b) h = ground arith

module _ (p : WorkItem → Bool) where
  later_than :
      (i k : WorkItem) (items : List WorkItem)
      → due_le i.due_at k.due_at ≡ true
      → All (λ (j : WorkItem). (p j ≡ false) ⊎ (due_le k.due_at j.due_at ≡ true)) items
      → All (λ (j : WorkItem). (p j ≡ false) ⊎ (due_le i.due_at j.due_at ≡ true)) items
  later_than i k [] h a = tt
  later_than i k (j ∷ items) h (inl n, a) = (inl n, later_than i k items h a)
  later_than i k (j ∷ items) h (inr d, a) =
      (inr (due_le_trans i.due_at k.due_at j.due_at h d), later_than i k items h a)

  none_selected :
      (i : WorkItem) (items : List WorkItem)
      → All (λ j. p j ≡ false) items
      → All (λ (j : WorkItem). (p j ≡ false) ⊎ (due_le i.due_at j.due_at ≡ true)) items
  none_selected i [] a = tt
  none_selected i (j ∷ items) (n, a) = (inl n, none_selected i items a)

  picks_first : (i k : WorkItem) → due_le i.due_at k.due_at ≡ true → earlier i (some k) ≡ i
  picks_first i k e = rw e refl

  picks_second : (i k : WorkItem) → due_le i.due_at k.due_at ≡ false → earlier i (some k) ≡ k
  picks_second i k e = rw e refl

  earliest_selected :
      (i : WorkItem) (items : List WorkItem)
      → p i ≡ true
      → earliest p (i ∷ items) ≡ some (earlier i (earliest p items))
  unfolding earliest
  earliest_selected i items e = rw e refl

  earliest_skipped :
      (i : WorkItem) (items : List WorkItem)
      → p i ≡ false
      → earliest p (i ∷ items) ≡ earliest p items
  unfolding earliest
  earliest_skipped i items e = rw e refl

  earlier-IsEarliest :
      (i : WorkItem) (items : List WorkItem) (o : Option WorkItem)
      → p i ≡ true
      → IsEarliest p items o
      → IsEarliest p (i ∷ items) (some (earlier i o))
  earlier-IsEarliest i items none h a =
      (inl refl, h, (inr (due_le_refl i.due_at), none_selected i items a))
  earlier-IsEarliest i items (some k) h (m, q, a) = elim (Bool-cases (due_le i.due_at k.due_at)) [
    | inl e ↦
        subst (λ x. IsEarliest p (i ∷ items) (some x)) (sym (picks_first i k e))
          (inl refl, h, (inr (due_le_refl i.due_at), later_than i k items e a))
    | inr e ↦
        subst (λ x. IsEarliest p (i ∷ items) (some x)) (sym (picks_second i k e))
          (inr m, q, (inr (due_le_total i.due_at k.due_at e), a))
  ]

  skip-IsEarliest :
      (i : WorkItem) (items : List WorkItem) (o : Option WorkItem)
      → p i ≡ false
      → IsEarliest p items o
      → IsEarliest p (i ∷ items) o
  skip-IsEarliest i items none h a = (h, a)
  skip-IsEarliest i items (some k) h (m, q, a) = (inr m, q, (inl h, a))

  pub earliest-IsEarliest : (items : List WorkItem) → IsEarliest p items (earliest p items)
  unfolding earliest
  earliest-IsEarliest [] = tt
  earliest-IsEarliest (i ∷ items) = elim (Bool-cases (p i)) [
    | inl e ↦
        subst (IsEarliest p (i ∷ items)) (sym (earliest_selected i items e))
          (earlier-IsEarliest i items (earliest p items) e (earliest-IsEarliest items))
    | inr e ↦
        subst (IsEarliest p (i ∷ items)) (sym (earliest_skipped i items e))
          (skip-IsEarliest i items (earliest p items) e (earliest-IsEarliest items))
  ]

-- The scheduler's next task is a pending task with a due time that no other such task is due before;
-- it waits for an interrupt exactly when there is none.
pub fetch_next_pending_task-IsEarliest :
    (items : List WorkItem) → IsEarliest is_timed items (fetch_next_pending_task items)
unfolding fetch_next_pending_task
fetch_next_pending_task-IsEarliest items = earliest-IsEarliest is_timed items
