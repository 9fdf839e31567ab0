-- ===== src/Tracker/Verdicts.antt =====
-- What a row says in the end, where worktracker/work_tracker.go writes it more than once.
use mathlib.Core.Option
use sokratos.Base.{ℕ, ◌≡◌, refl, ap, ◌∙◌, true, Option, some, ◌∷◌}
use sokratos.WorkItems.{Status, cancelled, WorkItem, find}
use sokratos.WorkItems.Table.{closed, find-update_where}
use sokratos.Tracker.{WorkTracker, has_id, update_work, plan_status, end_plan, cancel_work}

abbrev pub row : WorkTracker → ℕ → Option WorkItem
row wt id = find wt.db.items id

row-update_work :
    (wt : WorkTracker) (id : ℕ) (status : Status) (now : ℕ)
    → row (update_work wt true id status now) id ≡ Option.map (closed status now) (row wt id)
unfolding update_work
row-update_work wt id status now = find-update_where wt.db.items id status now

row-end_plan :
    (wt : WorkTracker) (id succeeded now : ℕ)
    → row (end_plan wt true id succeeded now) id
      ≡ Option.map (closed (plan_status succeeded) now) (row wt id)
unfolding end_plan
row-end_plan wt id succeeded now = row-update_work wt id (plan_status succeeded) now

row-cancel_work :
    (wt : WorkTracker) (i : WorkItem) (id now : ℕ)
    → has_id id wt.active ≡ true
    → row wt id ≡ some i
    → ((cancel_work wt true id now).1 ≡ true)
      × (row (cancel_work wt true id now).0 id ≡ some (closed cancelled now i))
unfolding cancel_work
row-cancel_work wt i id now a h = (
  rw (cancel_work, a) refl,
  rw (cancel_work, a)
      (row-update_work (record wt { called = id ∷ wt.called }) id cancelled now
        ∙ ap (Option.map (closed cancelled now)) h),
)

-- `Cancel` of an active item marks it as cancelled; when its goroutine then comes to its end, the row
-- says completed or failed, as if it had not been cancelled.
pub cancel_overwritten :
    (wt : WorkTracker) (i : WorkItem) (id succeeded now later : ℕ)
    → has_id id wt.active ≡ true
    → row wt id ≡ some i
    → ((cancel_work wt true id now).1 ≡ true)
      × (row (cancel_work wt true id now).0 id ≡ some (closed cancelled now i))
      × (row (end_plan (cancel_work wt true id now).0 true id succeeded later) id
          ≡ some (closed (plan_status succeeded) later i))
cancel_overwritten wt i id succeeded now later a h =
    let (answer, marked) = row-cancel_work wt i id now a h in
    (
      answer,
      marked,
      row-end_plan (cancel_work wt true id now).0 id succeeded later
          ∙ ap (Option.map (closed (plan_status succeeded) later)) marked,
    )
