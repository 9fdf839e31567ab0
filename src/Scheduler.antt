-- ===== src/Scheduler.antt =====
-- engine/scheduler.go and tools/task_queue.go: tasks that are due at a time.
-- The prompt, the reply and the messages are left out, and with them the LLM; so is the channel
-- that wakes the scheduler, which only makes it look again. Of equal due times the first row is
-- taken, where SQL leaves open which.
pub mod Earliest
pub mod Recurring
use sokratos.Base.{
  ℕ, zero, suc, ◌+◌, ◌-◌, ◌*◌, ◌/◌, ◌%◌, ◌^◌, ◌≤◌, ◌<◌, ◌≡◌, ◌≢◌, ◌↔◌, ◌⊎◌, inl, inr, refl, ap, sym,
  subst, ◌∙◌, Bool, true, false, not, ◌&&◌, ◌||◌, Option, none, some, List, [], ◌∷◌, ◌++◌, ltb, leb,
  ◌==◌, if◌then◌else◌, length, take, drop, get_elem?, is_empty, bytes, bytes_eq, bytes_eq_refl,
  bytes_eq_sound, ℤ, pos, negsuc, positive_or, Elem, All, Bool-cases, Option-cases, arith,
  length-append, has_prefix, length-snoc, length-take-le, length-drop,
}
use sokratos.WorkItems.{
  Status, pending, running, completed, failed, is_pending, WorkItem, WorkTable, scheduled, insert,
  update_where, with_id, find,
}
use sokratos.Tracker.{WorkTracker, track_start, track_end}

-- `type = 'scheduled' AND status = 'pending'`.
abbrev pub is_waiting : WorkItem → Bool
is_waiting i = bytes_eq i.work_type scheduled && is_pending i.status

-- `due_at IS NOT NULL` as well.
abbrev pub is_timed : WorkItem → Bool
is_timed i = is_waiting i && elim i.due_at [ none ↦ false | some d ↦ true ]

-- The order `due_at ASC NULLS LAST`, not after.
abbrev pub due_le : Option ℕ → Option ℕ → Bool
due_le d none = true
due_le none (some d) = false
due_le (some c) (some d) = leb c d

abbrev pub earlier : WorkItem → Option WorkItem → WorkItem
earlier i none = i
earlier i (some j) = if due_le i.due_at j.due_at then i else j

-- `… ORDER BY due_at ASC LIMIT 1`.
unfoldable pub earliest : (WorkItem → Bool) → List WorkItem → Option WorkItem
earliest p [] = none
earliest p (i ∷ items) = let rest = earliest p items in if p i then some (earlier i rest) else rest

unfoldable pub fetch_next_pending_task : List WorkItem → Option WorkItem
unfolding earliest
fetch_next_pending_task items = earliest is_timed items

abbrev pub status_is_pending : Option WorkItem → Bool
status_is_pending none = false
status_is_pending (some i) = is_pending i.status

-- How far the transaction gets.
pub data Transaction : Type 0 where
  not_begun not_updated not_inserted not_committed commits : Transaction

abbrev pub next_due : Option ℕ → ℤ → Option ℕ
next_due (some d) (pos (suc r)) = some (d + suc r)
next_due _ _ = none

-- The statements of the transaction that commits. A recurring task gets its next row.
unfoldable pub complete_row : WorkTable → WorkItem → ℕ → WorkTable
unfolding update_where
complete_row t task now = record t { items = update_where (with_id task.id) completed now t.items }

unfoldable pub reschedule : WorkTable → WorkItem → Option ℕ → WorkTable
unfolding insert
reschedule t task none = t
reschedule t task (some due) =
    (insert t scheduled task.directive pending (some due) task.recurrence none).0

-- A transaction that does not commit changes nothing; without a recurrence there is no insertion
-- that may fail.
unfoldable pub commit : WorkTable → WorkItem → Transaction → ℕ → WorkTable
unfolding complete_row reschedule
commit t task commits now =
    reschedule (complete_row t task now) task (next_due task.due_at task.recurrence)
commit t task _ now = t

-- The status with which the work of the task is tracked. A failed commit is only logged.
abbrev pub tracked_status : Transaction → Status
tracked_status commits = completed
tracked_status not_committed = completed
tracked_status _ = failed

-- `executeTask` up to the LLM, and after it. Other writers come in between.
unfoldable pub begin_task : WorkTracker → Bool → Bool → WorkItem → ℕ → ℕ → Option (WorkTracker × ℕ)
unfolding find track_start
begin_task wt query_ok db_ok task timeout now =
    if query_ok && status_is_pending (find wt.db.items task.id)
    then some (track_start wt db_ok scheduled task.directive timeout now)
    else none

unfoldable pub finish_task : WorkTracker → Bool → WorkItem → ℕ → Transaction → ℕ → WorkTracker
unfolding commit track_end
finish_task wt db_ok task work_id outcome now =
    track_end (record wt { db = commit wt.db task outcome now }) db_ok work_id
      (tracked_status outcome) now

-- A field of the arguments: absent, unreadable or read.
pub data Field {ℓ} (A : Type ℓ) : Type ℓ where
  absent unreadable : Field A
  given : A → Field A

abbrev pub due_of : Field ℕ → Option ℕ
due_of absent = none
due_of unreadable = none
due_of (given t) = some t

-- `time.Now().Add(d)`, for a time after the epoch.
abbrev pub add_duration : ℕ → ℤ → ℕ
add_duration t (pos d) = t + d
add_duration t (negsuc d) = t - (d + 1)

abbrev pub first_due : Option ℕ → ℕ → ℤ → Option ℕ
first_due (some t) now d = some t
first_due none now d = some (add_duration now d)

module _ (to_lower : List ℕ → List ℕ) (parse_duration : List ℕ → Option ℤ) where
  -- The values that mean no recurrence.
  unfoldable pub normal_recur : List ℕ → List ℕ
  normal_recur recur =
      let r = to_lower recur in
      if bytes_eq r (bytes "false")
        || bytes_eq r (bytes "no")
        || bytes_eq r (bytes "none")
        || bytes_eq r (bytes "0")
      then []
      else recur

  unfoldable pub recurrence_of : List ℕ → Field ℤ
  unfolding normal_recur
  recurrence_of recur =
      if is_empty (normal_recur recur)
      then absent
      else elim (parse_duration (normal_recur recur)) [ none ↦ unreadable | some d ↦ given d ]

  unfoldable pub insert_task : WorkTable → List ℕ → Option ℕ → Field ℤ → ℕ → WorkTable × Option ℕ
  insert_task t task due unreadable now = (t, none)
  insert_task t task due absent now =
      let (t', id) = insert t scheduled task pending due (pos 0) none in (t', some id)
  insert_task t task due (given d) now =
      let (t', id) = insert t scheduled task pending (first_due due now d) d none in (t', some id)

  -- `NewAddTask`, with a database that accepts the row; `none` is an answer without an id.
  unfoldable pub add_task : WorkTable → List ℕ → Field ℕ → List ℕ → ℕ → WorkTable × Option ℕ
  unfolding insert_task recurrence_of
  add_task t task unreadable recur now = (t, none)
  add_task t task absent recur now =
      if is_empty task then (t, none) else insert_task t task none (recurrence_of recur) now
  add_task t task (given due) recur now =
      if is_empty task then (t, none) else insert_task t task (some due) (recurrence_of recur) now

abbrev pub complete_found : WorkTable → Option WorkItem → ℕ → WorkTable × Option ℕ
complete_found t none now = (t, none)
complete_found t (some i) now =
    (record t { items = update_where (with_id i.id) completed now t.items }, some i.id)

abbrev pub if_waiting : Option WorkItem → Option WorkItem
if_waiting none = none
if_waiting (some i) = if is_waiting i then some i else none

-- `NewCompleteTask`: the task with the id, or the one that is due first.
unfoldable pub complete_task : WorkTable → ℕ → ℕ → WorkTable × Option ℕ
unfolding find earliest
complete_task t task_id now =
    complete_found t
      (if ltb 0 task_id then if_waiting (find t.items task_id) else earliest is_waiting t.items) now
