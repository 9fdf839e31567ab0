-- ===== src/WorkItems/Table.antt =====
-- The rows of `work_items` and their ids.
use mathlib.Core.Option
use sokratos.Base.{
  ℕ, suc, ◌<◌, ◌≡◌, ◌≢◌, inl, inr, refl, Bool, Option, none, some, List, [], ◌∷◌, ◌++◌, ◌==◌, ℤ,
  All, Bool-cases, arith,
}
use sokratos.WorkItems.{
  Status, WorkItem, WorkTable, insert, update_where, with_id, find, delete_where,
}

-- A row with a new status and the time of it.
abbrev pub closed : Status → ℕ → WorkItem → WorkItem
closed status now i = record i { status = status; completed_at = some now }

abbrev pub Absent : List WorkItem → ℕ → Type 0
Absent items id = All (λ (i : WorkItem). i.id ≢ id) items

abbrev pub Unique : List WorkItem → Type 0
Unique [] = Unit
Unique (i ∷ items) = Absent items i.id × Unique items

-- No two rows have one id, and the next serial number is above all of them.
pub record IsTable (t : WorkTable) : Type 0 where
  pub below : All (λ (i : WorkItem). i.id < t.next_id) t.items
  pub unique : Unique t.items

pub find-Absent : (items : List WorkItem) (id : ℕ) → Absent items id → find items id ≡ none
unfolding find
find-Absent [] id h = refl
find-Absent (i ∷ items) id (n, h) = ground (arith, find-Absent items id h)

pub update-Absent :
    (items : List WorkItem) (id : ℕ) (status : Status) (now : ℕ)
    → Absent items id
    → update_where (with_id id) status now items ≡ items
unfolding update_where
update-Absent [] id status now h = refl
update-Absent (i ∷ items) id status now (n, h) = ground (arith, update-Absent items id status now h)

pub find-update_where :
    (items : List WorkItem) (id : ℕ) (status : Status) (now : ℕ)
    → find (update_where (with_id id) status now items) id
      ≡ Option.map (closed status now) (find items id)
unfolding find update_where
find-update_where [] id status now = refl
find-update_where (i ∷ items) id status now = elim (Bool-cases (i.id == id)) [
  | inl e ↦ rw (e, e) refl
  | inr e ↦ rw (e, e) (find-update_where items id status now)
]

module _ (p : WorkItem → Bool) where
  Absent-update :
      (status : Status) (now : ℕ) (items : List WorkItem) (id : ℕ)
      → Absent items id
      → Absent (update_where p status now items) id
  unfolding update_where
  Absent-update status now [] id h = tt
  Absent-update status now (i ∷ items) id (n, h) = elim (Bool-cases (p i)) [
    | inl e ↦ rw e (n, Absent-update status now items id h)
    | inr e ↦ rw e (n, Absent-update status now items id h)
  ]

  Unique-update :
      (status : Status) (now : ℕ) (items : List WorkItem)
      → Unique items
      → Unique (update_where p status now items)
  unfolding update_where
  Unique-update status now [] h = tt
  Unique-update status now (i ∷ items) (n, h) = elim (Bool-cases (p i)) [
    | inl e ↦ rw e (Absent-update status now items i.id n, Unique-update status now items h)
    | inr e ↦ rw e (Absent-update status now items i.id n, Unique-update status now items h)
  ]

  below-update :
      (status : Status) (now n : ℕ) (items : List WorkItem)
      → All (λ (i : WorkItem). i.id < n) items
      → All (λ (i : WorkItem). i.id < n) (update_where p status now items)
  unfolding update_where
  below-update status now n [] h = tt
  below-update status now n (i ∷ items) (b, h) = elim (Bool-cases (p i)) [
    | inl e ↦ rw e (b, below-update status now n items h)
    | inr e ↦ rw e (b, below-update status now n items h)
  ]

  All-delete :
      (P : WorkItem → Type 0) (items : List WorkItem) → All P items → All P (delete_where p items)
  unfolding delete_where
  All-delete P [] h = tt
  All-delete P (i ∷ items) (b, h) = elim (Bool-cases (p i)) [
    | inl e ↦ rw e (All-delete P items h)
    | inr e ↦ rw e (b, All-delete P items h)
  ]

  Unique-delete : (items : List WorkItem) → Unique items → Unique (delete_where p items)
  unfolding delete_where
  Unique-delete [] h = tt
  Unique-delete (i ∷ items) (n, h) = elim (Bool-cases (p i)) [
    | inl e ↦ rw e (Unique-delete items h)
    | inr e ↦ rw e (All-delete (λ j. j.id ≢ i.id) items n, Unique-delete items h)
  ]

  pub update-IsTable :
      (status : Status) (now : ℕ) (t : WorkTable)
      → IsTable t
      → IsTable (record t { items = update_where p status now t.items })
  update-IsTable status now t v = record {
    below = below-update status now t.next_id t.items v.below;
    unique = Unique-update status now t.items v.unique;
  }

  pub delete-IsTable :
      (t : WorkTable) → IsTable t → IsTable (record t { items = delete_where p t.items })
  delete-IsTable t v = record {
    below = All-delete (λ i. i.id < t.next_id) t.items v.below;
    unique = Unique-delete t.items v.unique;
  }

module _ (new : WorkItem) where
  Absent-snoc :
      (items : List WorkItem) (id : ℕ)
      → Absent items id
      → new.id ≢ id
      → Absent (items ++ new ∷ []) id
  Absent-snoc [] id h n = (n, tt)
  Absent-snoc (i ∷ items) id (m, h) n = (m, Absent-snoc items id h n)

  Unique-snoc :
      (items : List WorkItem)
      → Unique items
      → All (λ (i : WorkItem). i.id < new.id) items
      → Unique (items ++ new ∷ [])
  Unique-snoc [] u b = (tt, tt)
  Unique-snoc (i ∷ items) (a, u) (b, bs) =
      (Absent-snoc items i.id a (omega arith), Unique-snoc items u bs)

  below-snoc :
      (items : List WorkItem)
      → All (λ (i : WorkItem). i.id < new.id) items
      → All (λ (i : WorkItem). i.id < suc new.id) (items ++ new ∷ [])
  below-snoc [] b = (omega arith, tt)
  below-snoc (i ∷ items) (b, bs) = (omega arith, below-snoc items bs)

pub insert-IsTable :
    (t : WorkTable) (work_type directive : List ℕ) (status : Status) (due_at : Option ℕ)
    (recurrence : ℤ) (timeout_at : Option ℕ)
    → IsTable t
    → IsTable (insert t work_type directive status due_at recurrence timeout_at).0
unfolding insert
insert-IsTable t work_type directive status due_at recurrence timeout_at v = record {
  below = below-snoc _ t.items v.below;
  unique = Unique-snoc _ t.items v.unique v.below;
}
