-- ===== src/Tracker/Slots.antt =====
-- How many plans of worktracker/work_tracker.go run at once.
use sokratos.Base.{ℕ, ◌≤◌, ◌≡◌, Bool, Option, none, some, List, [], ◌∷◌, ◌++◌, length}
use sokratos.WorkItems.{Status, WorkTable}
use sokratos.Tracker.{
  WorkTracker, max_slots, start, take_slot, free_slot, leave, track_start, set_cancel,
  cleanup_old_tasks, update_work, call_cancel, remove_id,
}

-- The tracker, with the goroutines that wait for a slot and those that run their steps.
pub record World : Type 0 where
  pub tracker : WorkTracker
  pub waiting : List ℕ
  pub working : List ℕ

abbrev pub launched : List ℕ → Option ℕ → List ℕ
launched waiting none = waiting
launched waiting (some id) = id ∷ waiting

-- A call of a method, or what a goroutine does next.
pub data Step : World → World → Type 0 where
  starts :
      (w : World) (db_ok : Bool) (directive : List ℕ) (now : ℕ)
      → Step w (record w {
        tracker = (start w.tracker db_ok directive now).0;
        waiting = launched w.waiting (start w.tracker db_ok directive now).1;
      })
  runs :
      (w : World) (id : ℕ) (before after : List ℕ) (wt : WorkTracker)
      → w.waiting ≡ before ++ id ∷ after
      → take_slot w.tracker ≡ some wt
      → Step w (record { tracker = wt; waiting = before ++ after; working = id ∷ w.working })
  -- The context of a goroutine that waits ends.
  gives_up :
      (w : World) (id : ℕ) (before after : List ℕ)
      → w.waiting ≡ before ++ id ∷ after
      → Step w (record w { waiting = before ++ after })
  -- A goroutine that ran its steps gives its token back.
  frees :
      (w : World) (id : ℕ) (before after : List ℕ)
      → w.working ≡ before ++ id ∷ after
      → Step w (record w { tracker = free_slot w.tracker; working = before ++ after })
  -- The parts of which `Cancel`, `KillHungWork`, `TrackEnd` and the ends of a goroutine are made.
  updates :
      (w : World) (db_ok : Bool) (id : ℕ) (status : Status) (now : ℕ)
      → Step w (record w { tracker = update_work w.tracker db_ok id status now })
  leaves : (w : World) (id : ℕ) → Step w (record w { tracker = leave w.tracker id })
  calls :
      (w : World) (id : ℕ)
      → Step w (record w { tracker = record (w.tracker) { called = id ∷ w.tracker.called } })
  deletes :
      (w : World) (id : ℕ)
      → Step w
          (record w { tracker = record (w.tracker) { active = remove_id id w.tracker.active } })
  kills : (w : World) (id : ℕ) → Step w (record w { tracker = call_cancel w.tracker id })
  tracks :
      (w : World) (db_ok : Bool) (work_type directive : List ℕ) (timeout now : ℕ)
      → Step w
          (record w { tracker = (track_start w.tracker db_ok work_type directive timeout now).0 })
  keeps : (w : World) (id : ℕ) → Step w (record w { tracker = set_cancel w.tracker id })
  cleans :
      (w : World) (db_ok : Bool) (now : ℕ)
      → Step w (record w { tracker = cleanup_old_tasks w.tracker db_ok now })
  -- The tools and the scheduler write to the same table.
  others :
      (w : World) (db : WorkTable) → Step w (record w { tracker = record (w.tracker) { db = db } })

pub data Reach : World → Type 0 where
  begins :
      (db : WorkTable)
      → Reach (record {
        tracker = record { db = db; active = []; called = []; slots = 0 };
        waiting = [];
        working = [];
      })
  next : (w w' : World) → Reach w → Step w w' → Reach w'

abbrev pub Holds : World → Type 0
Holds w = (w.tracker.slots ≡ length w.working) × (length w.working ≤ max_slots)
