-- ===== src/RoutineRuns.antt =====
-- engine/routines.go, `QueryDue` and `AdvanceTimer` of routines/sync.go, and the recent actions and
-- the sending of engine/engine.go.
-- Texts are bytes and times are nanoseconds. The tools, the orchestrator, the printed arguments of
-- an action, SHA-256, the interval in SQL and `strings.TrimSpace` are arguments; there is a notifier
-- and a work monitor, and nothing panics. The preamble of the prompt is an argument too, since Go
-- iterates over the preferences in any order.
pub mod Run
pub mod Silence
pub mod Tracked
use sokratos.Base.{
  ℕ, zero, suc, ◌+◌, ◌-◌, ◌*◌, ◌/◌, ◌%◌, ◌^◌, ◌≤◌, ◌<◌, ◌≡◌, ◌≢◌, ◌↔◌, ◌⊎◌, inl, inr, refl, ap, sym,
  subst, ◌∙◌, Bool, true, false, not, ◌&&◌, ◌||◌, Option, none, some, List, [], ◌∷◌, ◌++◌, ltb, leb,
  ◌==◌, if◌then◌else◌, length, take, drop, get_elem?, is_empty, bytes, bytes_eq, bytes_eq_refl,
  bytes_eq_sound, ℤ, pos, negsuc, positive_or, Elem, All, Bool-cases, Option-cases, arith,
  length-append, has_prefix, length-snoc, length-take-le, length-drop,
}
use sokratos.Schedule.{parse_schedules, is_schedule_due}
use sokratos.Routines.{contains, is_empty_result}
use sokratos.WorkItems.{Status, completed, failed}
use sokratos.Tracker.{WorkTracker, track_start, set_cancel, track_end}
use sokratos.Text.{truncate}
use sokratos.Conversation.{Message}

-- The columns that `QueryDue` reads.
pub record RoutineRow : Type 0 where
  pub id : ℕ
  pub name : List ℕ
  pub instruction : List ℕ
  pub action : Option (List ℕ)
  pub actions : List (List ℕ)
  pub goal : Option (List ℕ)
  pub silent_if_empty : Bool
  -- In nanoseconds, where it is set.
  pub interval_duration : Option ℕ
  pub schedule : Option (List ℕ)
  pub last_executed : ℕ

-- `interval_duration IS NOT NULL AND last_executed + interval_duration <= NOW()`.
abbrev pub is_interval_due : ℕ → RoutineRow → Bool
is_interval_due now r = elim r.interval_duration [
  | none ↦ false
  | some i ↦ leb (r.last_executed + i) now
]

abbrev pub schedules_of : (List ℕ → List ℕ) → RoutineRow → List (List ℕ)
schedules_of trim_space r = elim r.schedule [ none ↦ [] | some s ↦ parse_schedules trim_space s ]

-- Due by its interval or by its schedule; `today` gives the time of an hour and a minute.
unfoldable pub is_due : (List ℕ → List ℕ) → (ℕ → ℕ → ℕ) → ℕ → RoutineRow → Bool
unfolding is_schedule_due parse_schedules
is_due trim_space today now r =
    is_interval_due now r || is_schedule_due today now r.last_executed (schedules_of trim_space r)

-- `ORDER BY last_executed ASC`; rows of the same time keep their order.
unfoldable pub insert_row : RoutineRow → List RoutineRow → List RoutineRow
insert_row r [] = r ∷ []
insert_row r (q ∷ rows) =
    let rest = insert_row r rows in
    if leb r.last_executed q.last_executed then r ∷ q ∷ rows else q ∷ rest

unfoldable pub query_due : (List ℕ → List ℕ) → (ℕ → ℕ → ℕ) → ℕ → List RoutineRow → List RoutineRow
unfolding insert_row is_due
query_due trim_space today now [] = []
query_due trim_space today now (r ∷ rows) =
    let rest = query_due trim_space today now rows in
    if is_due trim_space today now r then insert_row r rest else rest

-- `UPDATE routines SET last_executed = NOW() WHERE id = $1`.
unfoldable pub advance_timer : List RoutineRow → ℕ → ℕ → List RoutineRow
advance_timer [] id now = []
advance_timer (r ∷ rows) id now =
    let rest = advance_timer rows id now in
    if r.id == id then record r { last_executed = now } ∷ rest else r ∷ rest

-- `strings.ReplaceAll(s, tag, "")`: the number counts the bytes of the tag that are left.
unfoldable pub remove_all : List ℕ → ℕ → List ℕ → List ℕ
remove_all tag skip [] = []
remove_all tag (suc skip) (c ∷ s) = remove_all tag skip s
remove_all tag zero (c ∷ s) =
    let inside = remove_all tag (length tag - 1) s in
    let outside = remove_all tag zero s in if has_prefix (c ∷ s) tag then inside else c ∷ outside

abbrev pub no_action_tag : List ℕ
no_action_tag = bytes "<NO_ACTION_REQUIRED>"

pub record ActionRecord : Type 0 where
  pub time : ℕ
  pub typ : List ℕ
  pub summary : List ℕ

-- `recordAction`: the last five are kept.
unfoldable pub record_action : List ActionRecord → ActionRecord → List ActionRecord
record_action recent_actions a =
    let all = recent_actions ++ a ∷ [] in
    if ltb 5 (length all) then drop (length all - 5) all else all

-- `FormatRecentActionsXML`; `quote` is `%q`, and `print_time` the printed time.
unfoldable pub action_lines : (List ℕ → List ℕ) → (ℕ → List ℕ) → ℕ → List ActionRecord → List ℕ
action_lines quote print_time cutoff [] = []
action_lines quote print_time cutoff (a ∷ recent_actions) =
    let rest = action_lines quote print_time cutoff recent_actions in
    if ltb a.time cutoff
    then rest
    else bytes "<action type="
      ++ (quote a.typ
          ++ (bytes " time="
              ++ (quote (print_time a.time)
                  ++ (62 ∷ a.summary ++ (bytes "</action>" ++ (10 ∷ rest))))))

unfoldable pub format_recent_actions :
    (List ℕ → List ℕ) → (ℕ → List ℕ) → ℕ → List ActionRecord → List ℕ
unfolding action_lines
format_recent_actions quote print_time cutoff recent_actions =
    let lines = action_lines quote print_time cutoff recent_actions in
    if is_empty lines
    then []
    else bytes "<recent_system_actions>" ++ (10 ∷ lines ++ bytes "</recent_system_actions>")
