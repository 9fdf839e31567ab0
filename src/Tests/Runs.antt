-- ===== src/Tests/Runs.antt =====
-- Examples for engine/routines.go and platform/telegram/format.go.
use sokratos.Base.{
  ℕ, ◌≤◌, ◌≡◌, inl, inr, refl, true, false, none, some, List, [], ◌∷◌, ◌==◌, if◌then◌else◌, length,
  take, bytes, All, Bool-cases, arith, has_prefix,
}
use sokratos.Tracker.{WorkTracker}
use sokratos.RoutineRuns.{
  RoutineRow, advance_timer, query_due, ActionRecord, record_action, format_recent_actions,
}
use sokratos.RoutineRuns.Run.{
  EngineState, RunServices, not_advanced, skipped, run_body, execute_single_routine, delivered,
}
use sokratos.RoutineRuns.Silence.{Ran, run_body-Ran}
use sokratos.RoutineRuns.Tracked.{IsEnded, execute_single_routine-IsEnded, query_due-advance_timer}
use sokratos.Telegram.{Match, Matchers, convert_lines, fence, escape_html, process_inline}
use sokratos.Telegram.Escape.{unescape, IsNoAngle, escape_html_shows}
use sokratos.Telegram.Inline.{IsDelimited, IsStarred, Ended, IsDocumented, process_inline_ends}

abbrev routine : RoutineRow
routine = record {
  id = 4;
  name = bytes "inbox";
  instruction = bytes "check";
  action = some (bytes "search_email");
  actions = [];
  goal = none;
  silent_if_empty = true;
  interval_duration = some 100;
  schedule = none;
  last_executed = 0;
}

abbrev idle_tracker : WorkTracker
idle_tracker = record {
  db = record { items = []; next_id = 9 };
  active = [];
  called = [];
  slots = 0;
}

abbrev engine : EngineState
engine = record {
  rows = routine ∷ [];
  tracker = idle_tracker;
  last_hash = [];
  sent = [];
  recent_actions = [];
  messages = [];
}

-- Services with a result of the tool; the hash of a text is the text.
abbrev services : List ℕ → RunServices
services result = record {
  tool_exec = λ name. some result;
  orchestrate = λ prompt. some (bytes "One mail.<NO_ACTION_REQUIRED>");
  hash = λ s. s;
  trim_space = λ s. s;
  rune_start = λ c. true;
  quote = λ s. s;
  preamble = [];
  timeout = 50;
  is_expired = false;
  now = 100;
  after = 110;
}

execute_single_routine-IsEnded_example :
    let v = services (bytes "mail") in
    (execute_single_routine v false true true routine engine ≡ (engine, not_advanced))
    × ((execute_single_routine v true true true routine engine).0.rows
        ≡ advance_timer (routine ∷ []) 4 100)
    × IsEnded 9 (execute_single_routine v true true true routine engine).0.tracker
execute_single_routine-IsEnded_example =
    execute_single_routine-IsEnded (services (bytes "mail")) routine engine true true (omega arith)

run_body-Ran_example :
    Ran (services (bytes "mail")) routine engine (run_body (services (bytes "mail")) routine engine)
run_body-Ran_example = run_body-Ran (services (bytes "mail")) routine engine

-- The tag is taken out of the text that is sent.
sent_text : (run_body (services (bytes "mail")) routine engine).1 ≡ delivered (bytes "One mail.")
unfolding run_body
sent_text = refl

no_mail : (run_body (services (bytes "No mail")) routine engine).1 ≡ skipped
unfolding run_body
no_mail = refl

query_due-advance_timer_example :
    All
      (λ q. (q.id == 4) ≡ false)
      (query_due (λ s. s) (λ h m. 0) 199 (advance_timer (routine ∷ []) 4 100))
query_due-advance_timer_example =
    query_due-advance_timer (λ s. s) (λ h m. 0) 100 199 4 (routine ∷ []) (inr (omega arith, tt), tt)

abbrev action : ℕ → ActionRecord
action time = record { time = time; typ = bytes "routine"; summary = [] }

last_five :
    record_action (action 1 ∷ action 2 ∷ action 3 ∷ action 4 ∷ action 5 ∷ []) (action 6)
    ≡ action 2 ∷ action 3 ∷ action 4 ∷ action 5 ∷ action 6 ∷ []
unfolding record_action
last_five = refl

nothing_recent : format_recent_actions (λ s. s) (λ t. []) 10 (action 1 ∷ []) ≡ []
unfolding format_recent_actions
nothing_recent = refl

abbrev lines : List (List ℕ)
lines = bytes "Prices:" ∷ bytes "|a|b|" ∷ bytes "|-|-|" ∷ bytes "|1|2|" ∷ []

one_table :
    convert_lines (λ s. s) false lines
    ≡ bytes "Prices:" ∷ fence ∷ bytes "|a|b|" ∷ bytes "|1|2|" ∷ fence ∷ []
unfolding convert_lines
one_table = refl

escape_html_shows_example :
    (unescape 0 (escape_html (bytes "a < b && c")) ≡ bytes "a < b && c")
    × All IsNoAngle (escape_html (bytes "a < b && c"))
escape_html_shows_example = escape_html_shows (bytes "a < b && c")

-- Expressions that match `**x**` and `*x*` at the start of a text only.
abbrev match_to : ℕ → Match
match_to stop = record { start = 0; stop = stop; inner = bytes "x"; second = [] }

abbrev at_start : Matchers
at_start = record {
  bold_re = λ s. if has_prefix s (bytes "**x**") then some (match_to 5) else none;
  strike_re = λ s. none;
  link_re = λ s. none;
  italic_re = λ s. if has_prefix s (bytes "*x*") then some (match_to 3) else none;
}

prefix_taken :
    (s prefix : List ℕ)
    → has_prefix s prefix ≡ true
    → (take (length prefix) s ≡ prefix) × (length prefix ≤ length s)
prefix_taken s [] h = (refl, omega arith)
prefix_taken [] (c ∷ prefix) h = cc h
prefix_taken (d ∷ s) (c ∷ prefix) h =
    let (taken, le) = prefix_taken s prefix (ground (arith, h)) in
    let same : d ≡ c = ground (arith, h) in (cc (same, taken), omega (arith, le))

at_start-IsDocumented : IsDocumented (λ s. length s) at_start
at_start-IsDocumented s = (bolds, (tt, (tt, italics)))
  where
    bolds : IsDelimited s (at_start.bold_re s)
    bolds = elim (Bool-cases (has_prefix s (bytes "**x**"))) [
      | inl e ↦ rw e (omega arith, (prefix_taken s (bytes "**x**") e).1, omega arith)
      | inr e ↦ rw e tt
    ]

    italics : IsStarred s (at_start.italic_re s)
    italics = elim (Bool-cases (has_prefix s (bytes "*x*"))) [
      | inl e ↦ rw e (
        omega arith,
        (prefix_taken s (bytes "*x*") e).1,
        ([], [], (prefix_taken s (bytes "*x*") e).0, (tt, ((refl, tt), tt))),
      )
      | inr e ↦ rw e tt
    ]

process_inline_ends_example :
    Ended
      (λ s. length s)
      at_start
      (bytes "**x**y")
      []
      (process_inline (λ s. length s) at_start 7 (bytes "**x**y") [])
process_inline_ends_example =
    process_inline_ends (λ s. length s) at_start at_start-IsDocumented (bytes "**x**y")
