-- ===== src/RoutineRuns/Tracked.antt =====
-- The work of a routine in engine/routines.go and its timer.
use sokratos.Base.{
  ℕ, ◌+◌, ◌≤◌, ◌<◌, ◌≡◌, ◌⊎◌, inl, inr, refl, Bool, true, false, Option, none, some, List, [], ◌∷◌,
  ◌++◌, leb, ◌==◌, if◌then◌else◌, bytes_eq, All, Bool-cases, Option-cases, arith,
}
use sokratos.Schedule.{parse_schedule, due_at, is_schedule_due}
use sokratos.WorkItems.{Status, completed, failed, WorkItem, is_over, with_id, update_where}
use sokratos.Tracker.{WorkTracker, has_id, remove_id, track_start, track_end, update_work}
use sokratos.RoutineRuns.{
  RoutineRow, is_interval_due, schedules_of, is_due, advance_timer, query_due, insert_row,
}
use sokratos.RoutineRuns.Run.{
  EngineState, RunServices, not_advanced, send_deduped, prompt_of, output_of, deliver, finish_run,
  run_body, start_work, execute_single_routine,
}

deliver-tracker :
    (v : RunServices) (r : RoutineRow) (s : EngineState) (text : List ℕ)
    → ((deliver v r s text).0.tracker ≡ s.tracker) × ((deliver v r s text).0.rows ≡ s.rows)
unfolding deliver send_deduped
deliver-tracker v r s text = elim (Bool-cases (bytes_eq (v.hash text) s.last_hash)) [
  | inl e ↦ rw e (refl, refl)
  | inr e ↦ rw e (refl, refl)
]

finish_run-tracker :
    (v : RunServices) (r : RoutineRow) (s : EngineState) (answer : List ℕ)
    → ((finish_run v r s answer).0.tracker ≡ s.tracker)
      × ((finish_run v r s answer).0.rows ≡ s.rows)
unfolding finish_run
finish_run-tracker v r s answer = elim (Option-cases (output_of v answer)) [
  | inl e ↦ rw (finish_run, e) (refl, refl)
  | inr (text, e) ↦ rw (finish_run, e) (deliver-tracker v r s text)
]

-- What runs between the timer and the end of the work changes neither.
run_body-tracker :
    (v : RunServices) (r : RoutineRow) (s : EngineState)
    → ((run_body v r s).0.tracker ≡ s.tracker) × ((run_body v r s).0.rows ≡ s.rows)
unfolding run_body
run_body-tracker v r s = elim (Option-cases (prompt_of v r)) [
  | inl e ↦ rw (run_body, e) (refl, refl)
  | inr (prompt, e) ↦ elim (Option-cases (v.orchestrate (v.preamble ++ (10 ∷ 10 ∷ prompt)))) [
    | inl o ↦ rw (run_body, e, o) (refl, refl)
    | inr (answer, o) ↦ rw (run_body, e, o) (finish_run-tracker v r s answer)
  ]
]

-- The work of this id has ended: it cannot be cancelled any more, and no row of it is running.
abbrev pub IsEnded : ℕ → WorkTracker → Type 0
IsEnded id wt =
    (has_id id wt.active ≡ false)
    × All (λ i. ((i.id == id) ≡ false) ⊎ (is_over i.status ≡ true)) wt.db.items

removed : (id : ℕ) (keys : List ℕ) → has_id id (remove_id id keys) ≡ false
unfolding has_id remove_id
removed id [] = refl
removed id (k ∷ keys) = ground (arith, removed id keys)

all_over :
    (id now : ℕ) (status : Status) (items : List WorkItem)
    → is_over status ≡ true
    → All
        (λ i. ((i.id == id) ≡ false) ⊎ (is_over i.status ≡ true))
        (update_where (with_id id) status now items)
unfolding update_where
all_over id now status [] e = tt
all_over id now status (i ∷ items) e = elim (Bool-cases (i.id == id)) [
  | inl same ↦ rw same (inr e, all_over id now status items e)
  | inr other ↦ rw other (inl other, all_over id now status items e)
]

track_end-IsEnded :
    (wt : WorkTracker) (id now : ℕ) (status : Status)
    → 0 < id
    → is_over status ≡ true
    → IsEnded id (track_end wt true id status now)
unfolding track_end update_work
track_end-IsEnded wt id now status h e =
    let known : (id == 0) ≡ false = ground arith in
    rw known (removed id wt.active, all_over id now status wt.db.items e)

-- A routine whose timer could not be advanced changes nothing. Otherwise its row says that it ran,
-- and, where the database takes the row of the work and its end, that work has ended, whatever the
-- tools and the orchestrator did, and also where the orchestrator is skipped.
pub execute_single_routine-IsEnded :
    (v : RunServices) (r : RoutineRow) (s : EngineState) (start_ok end_ok : Bool)
    → 0 < s.tracker.db.next_id
    → (execute_single_routine v false start_ok end_ok r s ≡ (s, not_advanced))
      × ((execute_single_routine v true start_ok end_ok r s).0.rows
          ≡ advance_timer s.rows r.id v.now)
      × IsEnded s.tracker.db.next_id (execute_single_routine v true true true r s).0.tracker
unfolding execute_single_routine start_work track_start
execute_single_routine-IsEnded v r s start_ok end_ok h = (
  refl,
  (run_body-tracker v r _).1,
  track_end-IsEnded _ s.tracker.db.next_id v.after (if v.is_expired then failed else completed) h
      (over v.is_expired),
)
  where
    over : (b : Bool) → is_over (if b then failed else completed) ≡ true
    over true = refl
    over false = refl

-- By the time `t` nothing makes a row due that ran at `now`: its interval is not over, and every time
-- of its schedules, on the day of `t`, was reached by `now` or is not yet over at `t`.
module _ (trim_space : List ℕ → List ℕ) (today : ℕ → ℕ → ℕ) (now t : ℕ) where
  abbrev pub IntervalRuns : Option ℕ → Type 0
  IntervalRuns none = Unit
  IntervalRuns (some i) = t < now + i

  abbrev pub IsPassed : Option (ℕ × ℕ) → Type 0
  IsPassed none = Unit
  IsPassed (some (h, m)) = (today h m ≤ now) ⊎ (t ≤ today h m)

  abbrev pub IsQuiet : RoutineRow → Type 0
  IsQuiet r =
      IntervalRuns r.interval_duration
      × All (λ s. IsPassed (parse_schedule s)) (schedules_of trim_space r)

  schedules_quiet :
      (schedules : List (List ℕ))
      → All (λ s. IsPassed (parse_schedule s)) schedules
      → is_schedule_due today t now schedules ≡ false
  unfolding is_schedule_due
  schedules_quiet [] a = refl
  schedules_quiet (s ∷ schedules) a =
      rw (passed (parse_schedule s) a.0, schedules_quiet schedules a.1) refl
    where
      passed : (o : Option (ℕ × ℕ)) → IsPassed o → due_at today t now o ≡ false
      passed none p = refl
      passed (some (h, m)) p = ground (arith, p)

  quiet_not_due :
      (r : RoutineRow)
      → IsQuiet r
      → is_due trim_space today t (record r { last_executed = now }) ≡ false
  unfolding is_due
  quiet_not_due r q =
      rw (schedules_quiet (schedules_of trim_space r) q.1, interval r.interval_duration q.0) refl
    where
      interval :
          (o : Option ℕ)
          → IntervalRuns o
          → is_interval_due t (record r { interval_duration = o; last_executed = now }) ≡ false
      interval none p = refl
      interval (some i) p = ground (arith, p)

  insert_row-All :
      (id : ℕ) (r : RoutineRow) (rows : List RoutineRow)
      → (r.id == id) ≡ false
      → All (λ q. (q.id == id) ≡ false) rows
      → All (λ q. (q.id == id) ≡ false) (insert_row r rows)
  unfolding insert_row
  insert_row-All id r [] e a = (e, tt)
  insert_row-All id r (q ∷ rows) e a = elim (Bool-cases (leb r.last_executed q.last_executed)) [
    | inl l ↦ rw l (e, a)
    | inr l ↦ rw l (a.0, insert_row-All id r rows e a.1)
  ]

  -- A routine whose timer was advanced does not come up again in a later query until its interval is
  -- over or a time of its schedules is reached.
  pub query_due-advance_timer :
      (id : ℕ) (rows : List RoutineRow)
      → All (λ r. ((r.id == id) ≡ false) ⊎ IsQuiet r) rows
      → All (λ q. (q.id == id) ≡ false) (query_due trim_space today t (advance_timer rows id now))
  unfolding query_due advance_timer
  query_due-advance_timer id [] a = tt
  query_due-advance_timer id (r ∷ rows) a = elim (Bool-cases (r.id == id)) [
    | inl same ↦
        rw (query_due, advance_timer, same, quiet_not_due r (quiet same a.0))
          (query_due-advance_timer id rows a.1)
    | inr other ↦
        rw (advance_timer, other)
          (if_due other (query_due trim_space today t (advance_timer rows id now))
            (query_due-advance_timer id rows a.1) (is_due trim_space today t r))
  ]
    where
      quiet : (r.id == id) ≡ true → ((r.id == id) ≡ false) ⊎ IsQuiet r → IsQuiet r
      quiet same (inl other) = cc (same, other)
      quiet same (inr q) = q

      if_due :
          (r.id == id) ≡ false
          → (rest : List RoutineRow) → All (λ q. (q.id == id) ≡ false) rest
          → (b : Bool) → All (λ q. (q.id == id) ≡ false) (if b then insert_row r rest else rest)
      if_due other rest a true = insert_row-All id r rest other a
      if_due other rest a false = a
