-- ===== src/Tracker.antt =====
-- worktracker/work_tracker.go: background work, its rows and its slots.
-- The database may refuse each statement: a Boolean argument says whether it does. The goroutine of
-- `Start` is three functions: it takes a slot, or gives up, and it ends. `active` holds the ids
-- whose cancel function is stored, and `called` those whose function has been called. Messages,
-- step counts and texts of results are left out. `cancel_work`, `kill_hung_work` and `track_end` run
-- their sections under the mutex and their updates one after the other; Slots has these as steps.
pub mod Slots
pub mod Verdicts
pub mod Watchdog
use sokratos.Base.{
  ℕ, zero, suc, ◌+◌, ◌-◌, ◌*◌, ◌/◌, ◌%◌, ◌^◌, ◌≤◌, ◌<◌, ◌≡◌, ◌≢◌, ◌↔◌, ◌⊎◌, inl, inr, refl, ap, sym,
  subst, ◌∙◌, Bool, true, false, not, ◌&&◌, ◌||◌, Option, none, some, List, [], ◌∷◌, ◌++◌, ltb, leb,
  ◌==◌, if◌then◌else◌, length, take, drop, get_elem?, is_empty, bytes, bytes_eq, bytes_eq_refl,
  bytes_eq_sound, ℤ, pos, negsuc, positive_or, Elem, All, Bool-cases, Option-cases, arith,
  length-append, has_prefix, length-snoc, length-take-le, length-drop,
}
use sokratos.WorkItems.{
  Status, pending, running, completed, failed, cancelled, is_running, is_over, WorkItem, WorkTable,
  insert, update_where, with_id, delete_where, select_where,
}

pub record WorkTracker : Type 0 where
  pub db : WorkTable
  pub active : List ℕ
  pub called : List ℕ
  -- The number of tokens in `sem`.
  pub slots : ℕ

abbrev pub max_slots : ℕ
max_slots = 3

abbrev pub plan_timeout : ℕ
plan_timeout = 15 * 60_000_000_000

-- `delete(wt.active, id)`.
unfoldable pub remove_id : ℕ → List ℕ → List ℕ
remove_id id [] = []
remove_id id (k ∷ keys) = let rest = remove_id id keys in if k == id then rest else k ∷ rest

unfoldable pub has_id : ℕ → List ℕ → Bool
has_id id [] = false
has_id id (k ∷ keys) = k == id || has_id id keys

-- `wt.active[id] = cancel`.
unfoldable pub add_id : ℕ → List ℕ → List ℕ
unfolding remove_id
add_id id keys = id ∷ remove_id id keys

-- `updateWork`.
unfoldable pub update_work : WorkTracker → Bool → ℕ → Status → ℕ → WorkTracker
unfolding update_where
update_work wt db_ok id status now =
    if db_ok
    then record wt {
      db = record (wt.db) { items = update_where (with_id id) status now wt.db.items };
    }
    else wt

-- `Start` up to its goroutine; `none` is the error.
unfoldable pub start : WorkTracker → Bool → List ℕ → ℕ → WorkTracker × Option ℕ
unfolding insert add_id
start wt db_ok directive now =
    let (db, id) =
      insert wt.db (bytes "background") directive running none (pos 0)
        (some (now + plan_timeout)) in
    if db_ok then (record wt { db = db; active = add_id id wt.active }, some id) else (wt, none)

-- The goroutine: a slot, if one is free.
unfoldable pub take_slot : WorkTracker → Option WorkTracker
take_slot wt = if ltb wt.slots max_slots then some (record wt { slots = wt.slots + 1 }) else none

-- The deferred `cancel(); delete(wt.active, taskID)`.
unfoldable pub leave : WorkTracker → ℕ → WorkTracker
unfolding remove_id
leave wt id = record wt { active = remove_id id wt.active; called = id ∷ wt.called }

-- Its context ends before it has a slot.
unfoldable pub give_up : WorkTracker → Bool → ℕ → ℕ → WorkTracker
unfolding update_work leave
give_up wt db_ok id now = leave (update_work wt db_ok id failed now) id

unfoldable pub plan_status : ℕ → Status
plan_status succeeded = if succeeded == 0 then failed else completed

-- The deferred `<-wt.sem`.
unfoldable pub free_slot : WorkTracker → WorkTracker
free_slot wt = record wt { slots = wt.slots - 1 }

-- After the steps: the row, then the slot, then the cancel function.
unfoldable pub end_plan : WorkTracker → Bool → ℕ → ℕ → ℕ → WorkTracker
unfolding update_work leave plan_status free_slot
end_plan wt db_ok id succeeded now =
    leave (free_slot (update_work wt db_ok id (plan_status succeeded) now)) id

-- The id is 0 where the insertion fails.
unfoldable pub track_start : WorkTracker → Bool → List ℕ → List ℕ → ℕ → ℕ → WorkTracker × ℕ
unfolding insert
track_start wt db_ok work_type directive timeout now =
    let (db, id) = insert wt.db work_type directive running none (pos 0) (some (now + timeout)) in
    if db_ok then (record wt { db = db }, id) else (wt, 0)

unfoldable pub set_cancel : WorkTracker → ℕ → WorkTracker
unfolding add_id
set_cancel wt id = if id == 0 then wt else record wt { active = add_id id wt.active }

unfoldable pub track_end : WorkTracker → Bool → ℕ → Status → ℕ → WorkTracker
unfolding update_work remove_id
track_end wt db_ok id status now =
    if id == 0
    then wt
    else update_work (record wt { active = remove_id id wt.active }) db_ok id status now

-- `status = 'running' AND timeout_at IS NOT NULL AND timeout_at < now()`.
abbrev pub is_before : Option ℕ → ℕ → Bool
is_before none now = false
is_before (some t) now = ltb t now

abbrev pub is_hung : ℕ → WorkItem → Bool
is_hung now i = is_running i.status && is_before i.timeout_at now

-- The cancel function, where there is one.
unfoldable pub call_cancel : WorkTracker → ℕ → WorkTracker
unfolding has_id remove_id
call_cancel wt id =
    if has_id id wt.active
    then record wt { called = id ∷ wt.called; active = remove_id id wt.active }
    else wt

unfoldable pub kill_all : WorkTracker → (ℕ → Bool) → List WorkItem → ℕ → WorkTracker
unfolding call_cancel update_work
kill_all wt db_ok [] now = wt
kill_all wt db_ok (i ∷ items) now =
    kill_all (update_work (call_cancel wt i.id) (db_ok i.id) i.id failed now) db_ok items now

-- The flag is whether the query succeeds; `db_ok` whether the row of an id is updated.
unfoldable pub kill_hung_work : WorkTracker → Bool → (ℕ → Bool) → ℕ → WorkTracker × ℕ
unfolding kill_all select_where
kill_hung_work wt query_ok db_ok now =
    let hung = select_where (is_hung now) wt.db.items in
    if query_ok then (kill_all wt db_ok hung now, length hung) else (wt, 0)

-- `false` is the answer that the item is not running.
unfoldable pub cancel_work : WorkTracker → Bool → ℕ → ℕ → WorkTracker × Bool
unfolding has_id remove_id update_work
cancel_work wt db_ok id now =
    if has_id id wt.active
    then (let wt' = update_work (record wt { called = id ∷ wt.called }) db_ok id cancelled now in
        (record wt' { active = remove_id id wt'.active }, true))
    else (wt, false)

unfoldable pub cleanup_orphans : WorkTracker → Bool → ℕ → WorkTracker
unfolding update_where
cleanup_orphans wt db_ok now =
    if db_ok
    then record wt {
      db = record (wt.db) {
        items = update_where (λ i. is_running i.status) failed now wt.db.items;
      };
    }
    else wt

abbrev pub seven_days : ℕ
seven_days = 7 * 24 * 60 * 60_000_000_000

abbrev pub is_old : ℕ → WorkItem → Bool
is_old now i =
    is_over i.status && elim i.completed_at [ none ↦ false | some t ↦ ltb (t + seven_days) now ]

unfoldable pub cleanup_old_tasks : WorkTracker → Bool → ℕ → WorkTracker
unfolding delete_where
cleanup_old_tasks wt db_ok now =
    if db_ok
    then record wt { db = record (wt.db) { items = delete_where (is_old now) wt.db.items } }
    else wt
