-- ===== src/Tracker/Watchdog.antt =====
-- What the watchdog of worktracker/work_tracker.go leaves behind.
use sokratos.Base.{
  ℕ, ◌≡◌, ◌⊎◌, inl, inr, refl, sym, subst, true, false, List, [], ◌∷◌, ◌==◌, Elem, All, Bool-cases,
  arith,
}
use sokratos.WorkItems.{failed, WorkItem, WorkTable, update_where, with_id, select_where}
use sokratos.Tracker.{WorkTracker, update_work, call_cancel, is_hung, kill_all, kill_hung_work}

abbrev ids : List WorkItem → List ℕ
ids [] = []
ids (i ∷ items) = i.id ∷ ids items

-- No row is hung, but those with the given ids.
abbrev HungIn : ℕ → List ℕ → List WorkItem → Type 0
HungIn now among items = All (λ (i : WorkItem). (is_hung now i ≡ false) ⊎ Elem i.id among) items

module _ (now : ℕ) where
  HungIn-more :
      (k : ℕ) (among : List ℕ) (items : List WorkItem)
      → HungIn now among items
      → HungIn now (k ∷ among) items
  HungIn-more k among [] h = tt
  HungIn-more k among (i ∷ items) (inl n, h) = (inl n, HungIn-more k among items h)
  HungIn-more k among (i ∷ items) (inr e, h) = (inr (inr e), HungIn-more k among items h)

  HungIn-select :
      (items : List WorkItem) → HungIn now (ids (select_where (is_hung now) items)) items
  unfolding select_where
  HungIn-select [] = tt
  HungIn-select (i ∷ items) = elim (Bool-cases (is_hung now i)) [
    | inl e ↦
        subst (λ hung. HungIn now (ids hung) (i ∷ items)) (sym (selected i items e))
          (
            inr (inl refl),
            HungIn-more i.id (ids (select_where (is_hung now) items)) items (HungIn-select items),
          )
    | inr e ↦
        subst (λ hung. HungIn now (ids hung) (i ∷ items)) (sym (skipped i items e))
          (inl e, HungIn-select items)
  ]
    where
      selected :
          (i : WorkItem) (items : List WorkItem)
          → is_hung now i ≡ true
          → select_where (is_hung now) (i ∷ items) ≡ i ∷ select_where (is_hung now) items
      selected i items e = rw (select_where, e) refl

      skipped :
          (i : WorkItem) (items : List WorkItem)
          → is_hung now i ≡ false
          → select_where (is_hung now) (i ∷ items) ≡ select_where (is_hung now) items
      skipped i items e = rw (select_where, e) refl

  HungIn-update :
      (k : ℕ) (among : List ℕ) (items : List WorkItem)
      → HungIn now (k ∷ among) items
      → HungIn now among (update_where (with_id k) failed now items)
  unfolding update_where
  HungIn-update k among [] h = tt
  HungIn-update k among (i ∷ items) (p, h) = elim (Bool-cases (i.id == k)) [
    | inl e ↦ rw e (inl refl, HungIn-update k among items h)
    | inr e ↦ rw e (
      elim p [ inl n ↦ inl n | inr (inl same) ↦ absurd (ground arith) | inr (inr m) ↦ inr m ],
      HungIn-update k among items h,
    )
  ]

  db-call_cancel : (wt : WorkTracker) (id : ℕ) → (call_cancel wt id).db ≡ wt.db
  unfolding call_cancel
  db-call_cancel wt id = ground arith

  HungIn-kill_all :
      (hung : List WorkItem) (wt : WorkTracker)
      → HungIn now (ids hung) wt.db.items
      → HungIn now [] (kill_all wt (λ id. true) hung now).db.items
  unfolding kill_all update_work
  HungIn-kill_all [] wt h = h
  HungIn-kill_all (i ∷ hung) wt h = HungIn-kill_all hung _ (
      HungIn-update i.id (ids hung) _ (
        subst (λ (db : WorkTable). HungIn now (i.id ∷ ids hung) db.items)
          (sym (db-call_cancel wt i.id)) h))

  none_hung : (items : List WorkItem) → HungIn now [] items → All (λ i. is_hung now i ≡ false) items
  none_hung [] h = tt
  none_hung (i ∷ items) (inl n, h) = (n, none_hung items h)
  none_hung (i ∷ items) (inr e, h) = elim e [ ]

-- When the watchdog's statements succeed, no row is left that runs past its timeout.
pub kill_hung_work_clears :
    (wt : WorkTracker) (now : ℕ)
    → All (λ i. is_hung now i ≡ false) (kill_hung_work wt true (λ id. true) now).0.db.items
unfolding kill_hung_work
kill_hung_work_clears wt now = none_hung now _ (
    HungIn-kill_all now (select_where (is_hung now) wt.db.items) wt (HungIn-select now wt.db.items))
