-- ===== src/Pursuit.antt =====
-- engine/objective_pursuit.go, `drainCuriositySignals` of engine/curiosity.go, what `Start` of
-- worktracker/work_tracker.go writes to the objectives, and their order in engine/heartbeat.go.
-- The zero time is `none`. Adaptive parameters, the servers and the launch of the work itself are
-- arguments; the ids of objectives and the priorities are not negative. Whether the table takes an
-- update, which the source never asks, is an argument too. Callback has what runs when the task of an
-- objective ends. Metrics and the texts of prompts are left out.
pub mod Callback
pub mod Choice
pub mod Signals
pub mod Marks
use sokratos.Base.{
  ℕ, zero, suc, ◌+◌, ◌-◌, ◌*◌, ◌/◌, ◌%◌, ◌^◌, ◌≤◌, ◌<◌, ◌≡◌, ◌≢◌, ◌↔◌, ◌⊎◌, inl, inr, refl, ap, sym,
  subst, ◌∙◌, Bool, true, false, not, ◌&&◌, ◌||◌, Option, none, some, List, [], ◌∷◌, ◌++◌, ltb, leb,
  ◌==◌, if◌then◌else◌, length, take, drop, get_elem?, is_empty, bytes, bytes_eq, bytes_eq_refl,
  bytes_eq_sound, ℤ, pos, negsuc, positive_or, Elem, All, Bool-cases, Option-cases, arith,
  length-append, has_prefix, length-snoc, length-take-le, length-drop,
}
use sokratos.Text.{truncate}
use sokratos.Objectives.{
  ObjectiveStatus, active, in_progress, Objective, ObjectiveTable, update_status, append_progress,
  increment_attempts, complete, get_row, list_active,
}

pub record CuriositySignal : Type 0 where
  pub source : List ℕ
  pub query : List ℕ
  pub priority : ℕ
  pub objective_id : ℕ

-- A task that was launched.
pub record Launch : Type 0 where
  pub directive : List ℕ
  pub priority : ℕ
  pub objective_id : ℕ

-- `signals` is what waits in the channel, and `launched` what was launched, the latest first.
pub record PursuitState : Type 0 where
  pub objectives : ObjectiveTable
  pub signals : List CuriositySignal
  pub last_objective_pursuit_run : Option ℕ
  pub last_curiosity_run : Option ℕ
  pub launched : List Launch

-- Whether the table takes the updates of `Start`.
pub record StartWrites : Type 0 where
  pub status_ok : Bool
  pub attempts_ok : Bool

-- `Start`, as far as the objective goes; it may fail before it writes anything.
unfoldable pub mark_pursued : StartWrites → ObjectiveTable → ℕ → ℕ → ObjectiveTable
unfolding update_status increment_attempts
mark_pursued w t id now =
    if id == 0
    then t
    else (let marked = if w.status_ok then update_status t id in_progress now else t in
        if w.attempts_ok then increment_attempts marked id now else marked)

unfoldable pub launch : PursuitState → StartWrites → Bool → Launch → ℕ → PursuitState
unfolding mark_pursued
launch s w launch_ok l now =
    if launch_ok
    then record s {
      objectives = mark_pursued w s.objectives l.objective_id now;
      launched = l ∷ s.launched;
    }
    else s

abbrev pub hour : ℕ
hour = 3600 * 1_000_000_000

abbrev pub default_objective_pursuit_cooldown : ℕ
default_objective_pursuit_cooldown = 4 * hour

abbrev pub objective_pursuit_max_inactive : ℕ
objective_pursuit_max_inactive = 24 * hour

-- `time.Since(t) < cooldown`.
abbrev pub is_within : Option ℕ → ℕ → ℕ → Bool
is_within none cooldown now = false
is_within (some t) cooldown now = ltb now (t + cooldown)

abbrev pub is_inactive : Option ℕ → ℕ → Bool
is_inactive none now = true
is_inactive (some t) now = ltb (t + objective_pursuit_max_inactive) now

abbrev pub is_running_count : Option ℕ → Bool
is_running_count none = false
is_running_count (some n) = ltb 0 n

-- The first that was not pursued within the cooldown.
unfoldable pub select : List Objective → ℕ → ℕ → Option Objective
select [] cooldown now = none
select (g ∷ rows) cooldown now =
    let later = select rows cooldown now in
    if is_within g.last_pursued cooldown now then later else some g

abbrev pub stuck_signal : Objective → CuriositySignal
stuck_signal g = record {
  source = bytes "objective";
  query = bytes "alternative approaches to: " ++ g.summary;
  priority = 7;
  objective_id = g.id;
}

abbrev pub objective_launch : Objective → Launch
objective_launch g = record {
  directive = bytes "[objective] " ++ g.summary;
  priority = 5;
  objective_id = g.id;
}

abbrev pub signal_capacity : ℕ
signal_capacity = 10

-- The `select` with a `default`.
unfoldable pub offer : List CuriositySignal → CuriositySignal → List CuriositySignal
offer signals signal =
    if ltb (length signals) signal_capacity then signals ++ signal ∷ [] else signals

-- What a round met: the conditions of the engine, the queries and the launch.
pub record PursuitRound : Type 0 where
  -- `ObjectivePursuitCooldown`, where 0 is the default.
  pub cooldown : ℕ
  pub last_activity : Option ℕ
  -- The number of running objective tasks, or `none` where the query fails.
  pub running : Option ℕ
  pub list_ok : Bool
  pub has_channel : Bool
  pub launch_ok : Bool
  pub writes : StartWrites
  pub now : ℕ
  pub after : ℕ

pub data Pursuit : Type 0 where
  idle launch_failed : Pursuit
  signals_stuck launches : Objective → Pursuit

abbrev pub cooldown_of : PursuitRound → ℕ
cooldown_of r = if r.cooldown == 0 then default_objective_pursuit_cooldown else r.cooldown

unfoldable pub pursue : PursuitRound → PursuitState → Objective → PursuitState × Pursuit
unfolding launch offer
pursue r s g =
    if leb 3 g.attempts && r.has_channel
    then (
      record s {
        signals = offer s.signals (stuck_signal g);
        last_objective_pursuit_run = some r.after;
      },
      signals_stuck g,
    )
    else if r.launch_ok
    then (
      record (launch s r.writes true (objective_launch g) r.after) {
        last_objective_pursuit_run = some r.after;
      },
      launches g,
    )
    else (s, launch_failed)

-- `runObjectivePursuitIfReady`, with services and a database.
unfoldable pub run_objective_pursuit : PursuitRound → PursuitState → PursuitState × Pursuit
unfolding pursue list_active select
run_objective_pursuit r s =
    if is_within s.last_objective_pursuit_run (cooldown_of r) r.now
    then (s, idle)
    else if is_inactive r.last_activity r.now
    then (s, idle)
    else if is_running_count r.running
    then (s, idle)
    else if not r.list_ok
    then (s, idle)
    else elim (select (list_active s.objectives) (cooldown_of r) r.now) [
      | none ↦ (s, idle)
      | some g ↦ pursue r s g
    ]

-- The loop of `drainCuriositySignals`.
unfoldable pub best_signal : Option CuriositySignal → List CuriositySignal → Option CuriositySignal
best_signal best [] = best
best_signal none (sig ∷ signals) = best_signal (some sig) signals
best_signal (some best) (sig ∷ signals) =
    best_signal (some (if ltb best.priority sig.priority then sig else best)) signals

abbrev pub min_gap : ℕ → ℕ
min_gap cooldown =
    if ltb cooldown (30 * 60 * 1_000_000_000) then cooldown else 30 * 60 * 1_000_000_000

abbrev pub signal_launch : CuriositySignal → Launch
signal_launch best = record {
  directive = (bytes "[curiosity:" ++ best.source) ++ (bytes "] " ++ best.query);
  priority = best.priority;
  objective_id = best.objective_id;
}

-- `drainCuriositySignals`, with the channel and services; `cooldown` is what the adaptive parameter
-- gives.
unfoldable pub drain_curiosity_signals :
    ℕ → StartWrites → Bool → ℕ → ℕ → PursuitState → PursuitState
unfolding best_signal launch
drain_curiosity_signals cooldown w launch_ok now after s =
    let drained = record s { signals = [] } in
    elim (best_signal none s.signals) [
      | none ↦ drained
      | some best ↦
          if is_within s.last_curiosity_run (min_gap cooldown) now
          then drained
          else if launch_ok
          then record (launch drained w true (signal_launch best) after) {
            last_curiosity_run = some after;
          }
          else drained
    ]

-- The two, one after the other, as `heartbeatTick` of engine/heartbeat.go runs them.
unfoldable pub tick : PursuitRound → ℕ → StartWrites → Bool → ℕ → ℕ → PursuitState → PursuitState
unfolding run_objective_pursuit drain_curiosity_signals
tick r cooldown w launch_ok now after s =
    drain_curiosity_signals cooldown w launch_ok now after (run_objective_pursuit r s).0
