-- ===== src/Scheduler/Recurring.antt =====
-- What becomes of the tasks of engine/scheduler.go.
use mathlib.Core.Option
use sokratos.Base.{
  ℕ, ◌+◌, ◌<◌, ◌≡◌, ◌≢◌, inl, inr, refl, ap, subst, ◌∙◌, true, false, Option, none, some, List, [],
  ◌∷◌, ◌++◌, ◌==◌, if◌then◌else◌, All, Bool-cases, arith,
}
use sokratos.WorkItems.{
  Status, pending, completed, WorkItem, WorkTable, scheduled, update_where, with_id, find,
}
use sokratos.WorkItems.Table.{
  closed, IsTable, update-IsTable, insert-IsTable, Unique, Absent, update-Absent, find-update_where,
}
use sokratos.Tracker.{WorkTracker, update_work, track_end}
use sokratos.Tracker.Verdicts.{row}
use sokratos.Scheduler.{
  is_timed, next_due, not_committed, commits, complete_row, reschedule, commit, finish_task,
}

-- The tasks that the scheduler still has to run.
unfoldable pub timed : List WorkItem → ℕ
timed [] = 0
timed (i ∷ items) = (if is_timed i then 1 else 0) + timed items

timed-append : (xs ys : List WorkItem) → timed (xs ++ ys) ≡ timed xs + timed ys
unfolding timed
timed-append [] ys = omega arith
timed-append (i ∷ xs) ys = omega (arith, timed-append xs ys)

closed_not_timed : (i : WorkItem) (now : ℕ) → is_timed (closed completed now i) ≡ false
closed_not_timed i now = ground arith

same : (a b : ℕ) → (a == b) ≡ true → a ≡ b
same a b h = ground arith

some_same : (i j : WorkItem) → some i ≡ some j → i ≡ j
some_same i j h = ap (λ (o : Option WorkItem). elim o [ none ↦ i | some k ↦ k ]) h

-- One row less, where a row of the table with this id is completed.
timed_complete :
    (items : List WorkItem) (task : WorkItem) (now : ℕ)
    → Unique items
    → find items task.id ≡ some task
    → is_timed task ≡ true
    → timed (update_where (with_id task.id) completed now items) + 1 ≡ timed items
unfolding timed find update_where
timed_complete [] task now u h w = cc h
timed_complete (i ∷ items) task now (a, u) h w = elim (Bool-cases (i.id == task.id)) [
  | inl e ↦
      rw
        (
          e,
          update-Absent items task.id completed now (subst (Absent items) (same i.id task.id e) a),
          closed_not_timed i now,
          ap is_timed (some_same i task (rw e at h)),
          w,
        )
        (omega arith)
  | inr e ↦ rw e (omega (arith, timed_complete items task now u (rw e at h) w))
]

-- The row that the transaction inserts.
abbrev pub next_row : ℕ → WorkItem → ℕ → WorkItem
next_row id task due = record {
  id = id;
  work_type = scheduled;
  directive = task.directive;
  status = pending;
  due_at = some due;
  recurrence = task.recurrence;
  timeout_at = none;
  completed_at = none;
}

find-snoc :
    (items : List WorkItem) (i : WorkItem)
    → Absent items i.id
    → find (items ++ i ∷ []) i.id ≡ some i
unfolding find
find-snoc [] i a = ground arith
find-snoc (j ∷ items) i (n, a) = ground (arith, find-snoc items i a)

timed_next : (id : ℕ) (task : WorkItem) (due : ℕ) → timed (next_row id task due ∷ []) ≡ 1
unfolding timed
timed_next id task due = refl

Absent-next :
    (items : List WorkItem) (n : ℕ) → All (λ (i : WorkItem). i.id < n) items → Absent items n
Absent-next [] n h = tt
Absent-next (i ∷ items) n (b, h) = (omega arith, Absent-next items n h)

-- One task less than in `t`, or as many and a row for `due` among them.
abbrev pub Rescheduled : WorkTable → WorkTable → WorkItem → Option ℕ → Type 0
Rescheduled t t' task none = timed t'.items + 1 ≡ timed t.items
Rescheduled t t' task (some due) =
    (timed t'.items ≡ timed t.items)
    × (find t'.items t.next_id ≡ some (next_row t.next_id task due))

reschedule_lem :
    (t : WorkTable) (task : WorkItem) (now : ℕ) (due : Option ℕ)
    → IsTable t
    → find t.items task.id ≡ some task
    → is_timed task ≡ true
    → IsTable (reschedule (complete_row t task now) task due)
      × Rescheduled t (reschedule (complete_row t task now) task due) task due
unfolding complete_row reschedule
reschedule_lem t task now none v h w = (
  update-IsTable (with_id task.id) completed now t v,
  timed_complete t.items task now v.unique h w,
)
reschedule_lem t task now (some due) v h w =
    let v' = update-IsTable (with_id task.id) completed now t v in
    let items = update_where (with_id task.id) completed now t.items in
    (
      insert-IsTable (record t { items = items }) _ _ _ _ _ _ v',
      (
        omega (
          arith,
          timed-append items (next_row t.next_id task due ∷ []),
          timed_next t.next_id task due,
          timed_complete t.items task now v.unique h w,
        ),
        find-snoc items (next_row t.next_id task due) (Absent-next items t.next_id v'.below),
      ),
    )

find_other :
    (items : List WorkItem) (id other : ℕ) (status : Status) (now : ℕ)
    → other ≢ id
    → find (update_where (with_id id) status now items) other ≡ find items other
unfolding find update_where
find_other [] id other status now n = refl
find_other (i ∷ items) id other status now n = elim (Bool-cases (i.id == id)) [
  | inl e ↦ rw (e, find_other items id other status now n) (ground arith)
  | inr e ↦ rw (e, find_other items id other status now n) refl
]

find-append :
    (items rows : List WorkItem) (id : ℕ) (i : WorkItem)
    → find items id ≡ some i
    → find (items ++ rows) id ≡ some i
unfolding find
find-append [] rows id i h = absurd (cc h)
find-append (j ∷ items) rows id i h = elim (Bool-cases (j.id == id)) [
  | inl e ↦ rw e (rw e at h)
  | inr e ↦ rw e (find-append items rows id i (rw e at h))
]

find_beside :
    (items : List WorkItem) (i : WorkItem) (id : ℕ)
    → (i.id == id) ≡ false
    → find (items ++ i ∷ []) id ≡ find items id
unfolding find
find_beside [] i id n = rw n refl
find_beside (j ∷ items) i id n = elim (Bool-cases (j.id == id)) [
  | inl e ↦ rw e refl
  | inr e ↦ rw e (find_beside items i id n)
]

-- The row `task` is completed, and the row `other`, if there is one, is as it was.
abbrev pub IsOver : WorkTable → WorkTable → WorkItem → ℕ → ℕ → Type 0
IsOver t t' task other now =
    (find t'.items task.id ≡ some (closed completed now task))
    × (find t'.items other ≡ find t.items other)

complete_row-IsOver :
    (t : WorkTable) (task : WorkItem) (other now : ℕ)
    → find t.items task.id ≡ some task
    → other ≢ task.id
    → IsOver t (complete_row t task now) task other now
unfolding complete_row
complete_row-IsOver t task other now h n = (
  find-update_where t.items task.id completed now ∙ ap (Option.map (closed completed now)) h,
  find_other t.items task.id other completed now n,
)

reschedule-IsOver :
    (t : WorkTable) (task : WorkItem) (other now : ℕ) (due : Option ℕ)
    → find t.items task.id ≡ some task
    → other ≢ task.id
    → other ≢ t.next_id
    → IsOver t (reschedule (complete_row t task now) task due) task other now
unfolding reschedule complete_row
reschedule-IsOver t task other now none h n new = complete_row-IsOver t task other now h n
reschedule-IsOver t task other now (some due) h n new =
    let over = complete_row-IsOver t task other now h n in
    let items = update_where (with_id task.id) completed now t.items in
    let beside : (t.next_id == other) ≡ false = ground arith in
    (
      find-append items (next_row t.next_id task due ∷ []) task.id (closed completed now task)
          over.0,
      find_beside items (next_row t.next_id task due) other beside ∙ over.1,
    )

-- A task that the scheduler runs is completed once its transaction commits, and every other row of
-- the table is as it was. A recurring one is there again as a new pending row, due one period after
-- the time at which it was due, so that as many tasks are left to run as before; otherwise it is one
-- less. The ids stay different.
pub commit_reschedules :
    (t : WorkTable) (task : WorkItem) (other now : ℕ)
    → IsTable t
    → find t.items task.id ≡ some task
    → is_timed task ≡ true
    → other ≢ task.id
    → other ≢ t.next_id
    → IsTable (commit t task commits now)
      × Rescheduled t (commit t task commits now) task (next_due task.due_at task.recurrence)
      × IsOver t (commit t task commits now) task other now
unfolding commit
commit_reschedules t task other now v h w n new =
    let due = next_due task.due_at task.recurrence in
    let lem = reschedule_lem t task now due v h w in
    (lem.0, lem.1, reschedule-IsOver t task other now due h n new)

nonzero : (n : ℕ) → 0 < n → (n == 0) ≡ false
nonzero n h = ground arith

-- When the commit fails, the work is tracked as completed and the task is still pending, so that the
-- scheduler takes it again.
pub failed_commit_repeats :
    (wt : WorkTracker) (task work : WorkItem) (now : ℕ)
    → 0 < work.id
    → task.id ≢ work.id
    → row wt task.id ≡ some task
    → row wt work.id ≡ some work
    → (row (finish_task wt true task work.id not_committed now) task.id ≡ some task)
      × (row (finish_task wt true task work.id not_committed now) work.id
          ≡ some (closed completed now work))
unfolding finish_task commit
failed_commit_repeats wt task work now p n h k =
    rw (finish_task, track_end, update_work, nonzero work.id p)
      (
        find_other wt.db.items work.id task.id completed now n ∙ h,
        find-update_where wt.db.items work.id completed now
            ∙ ap (Option.map (closed completed now)) k,
      )
