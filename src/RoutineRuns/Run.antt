-- ===== src/RoutineRuns/Run.antt =====
-- `executeSingleRoutine` of engine/routines.go.
use sokratos.Base.{
  ℕ, Bool, true, false, not, ◌&&◌, ◌||◌, Option, none, some, List, [], ◌∷◌, ◌++◌, if◌then◌else◌,
  is_empty, bytes, bytes_eq,
}
use sokratos.Routines.{contains, is_empty_result}
use sokratos.WorkItems.{completed, failed}
use sokratos.Tracker.{WorkTracker, track_start, set_cancel, track_end}
use sokratos.Text.{truncate}
use sokratos.Conversation.{Message}
use sokratos.RoutineRuns.{
  ActionRecord, RoutineRow, advance_timer, no_action_tag, record_action, remove_all,
}

-- The parts of the engine that a run changes.
pub record EngineState : Type 0 where
  pub rows : List RoutineRow
  pub tracker : WorkTracker
  pub last_hash : List ℕ
  pub sent : List (List ℕ)
  pub recent_actions : List ActionRecord
  pub messages : List Message

-- What the run meets.
pub record RunServices : Type 0 where
  -- The tool, with its arguments: a result or an error.
  pub tool_exec : List ℕ → Option (List ℕ)
  -- The answer to a prompt, or an error.
  pub orchestrate : List ℕ → Option (List ℕ)
  pub hash : List ℕ → List ℕ
  pub trim_space : List ℕ → List ℕ
  pub rune_start : ℕ → Bool
  pub quote : List ℕ → List ℕ
  pub preamble : List ℕ
  pub timeout : ℕ
  -- Whether the context has ended by the time the work is over.
  pub is_expired : Bool
  pub now : ℕ
  pub after : ℕ

-- How a run ended, where it began.
pub data RunEnd : Type 0 where
  not_advanced skipped orchestrator_failed silent : RunEnd
  suppressed delivered : List ℕ → RunEnd

-- `sendDeduped`.
unfoldable pub send_deduped : RunServices → EngineState → List ℕ → EngineState × Bool
send_deduped v s text =
    if bytes_eq (v.hash text) s.last_hash
    then (s, false)
    else (record s { last_hash = v.hash text; sent = s.sent ++ text ∷ [] }, true)

unfoldable pub action_list : RoutineRow → List (List ℕ)
action_list r =
    if not (is_empty r.actions)
    then r.actions
    else elim r.action [ none ↦ [] | some a ↦ if is_empty a then [] else a ∷ [] ]

-- The loop over the actions: the text of the results, and whether one is not empty.
unfoldable pub call_actions : (List ℕ → Option (List ℕ)) → List (List ℕ) → List ℕ × Bool
unfolding is_empty_result
call_actions tool_exec [] = ([], false)
call_actions tool_exec (name ∷ names) =
    let (results, any) = call_actions tool_exec names in
    elim (tool_exec name) [
      | none ↦ (results, any)
      | some result ↦ (
        bytes "## " ++ (name ++ (10 ∷ result ++ (10 ∷ 10 ∷ results))),
        not (is_empty_result result) || any,
      )
    ]

-- `strings.Join(actionList, ", ")`.
unfoldable pub join_names : List (List ℕ) → List ℕ
join_names [] = []
join_names (a ∷ []) = a
join_names (a ∷ b ∷ names) = a ++ (bytes ", " ++ join_names (b ∷ names))

unfoldable pub goal_of : RoutineRow → List ℕ
goal_of r = elim r.goal [ none ↦ r.instruction | some g ↦ if is_empty g then r.instruction else g ]

unfoldable pub action_prompt : RoutineRow → List ℕ → List ℕ
unfolding goal_of action_list join_names
action_prompt r results =
    bytes "ROUTINE: "
    ++ (r.name
        ++ ((10 ∷ bytes "The following actions were called: ")
            ++ (join_names (action_list r)
                ++ ((10 ∷ 10 ∷ bytes "Results:")
                    ++ ((10 ∷ results) ++ ((10 ∷ bytes "Your task: ") ++ goal_of r))))))

unfoldable pub legacy_prompt : RoutineRow → List ℕ
legacy_prompt r =
    bytes "ROUTINE: "
    ++ (r.instruction
        ++ ((10 ∷ bytes "Execute this routine now. Use your tools to complete it.")
            ++ (10 ∷ bytes "Do not message the user unless the routine explicitly requires it.")))

-- The prompt, or none where the orchestrator is skipped.
unfoldable pub prompt_of : RunServices → RoutineRow → Option (List ℕ)
unfolding action_list call_actions action_prompt legacy_prompt
prompt_of v r =
    let (results, any) = call_actions v.tool_exec (action_list r) in
    if is_empty (action_list r)
    then some (legacy_prompt r)
    else if r.silent_if_empty && not any
    then none
    else some (action_prompt r results)

abbrev pub silent_record : RunServices → RoutineRow → ActionRecord
silent_record v r = record {
  time = v.after;
  typ = bytes "routine";
  summary = bytes "Executed " ++ (v.quote r.name ++ bytes " (silent)");
}

abbrev pub sent_record : RunServices → RoutineRow → List ℕ → ActionRecord
sent_record v r reply = record {
  time = v.after;
  typ = bytes "routine";
  summary =
      bytes "Sent " ++ (v.quote r.name ++ (bytes " output: " ++ truncate v.rune_start reply 80));
}

abbrev pub routine_message : RunServices → RoutineRow → List ℕ → Message
routine_message v r reply = record {
  role = bytes "assistant";
  content = bytes "[ROUTINE: " ++ (r.name ++ (93 ∷ 10 ∷ truncate v.rune_start reply 500));
}

-- The text that is sent, or none where the reply is empty or only the tag.
unfoldable pub output_of : RunServices → List ℕ → Option (List ℕ)
unfolding remove_all contains
output_of v answer =
    let reply = v.trim_space answer in
    let stripped = v.trim_space (remove_all no_action_tag 0 reply) in
    if is_empty reply || contains reply no_action_tag && is_empty stripped
    then none
    else some stripped

unfoldable pub deliver : RunServices → RoutineRow → EngineState → List ℕ → EngineState × RunEnd
unfolding send_deduped record_action truncate
deliver v r s text =
    let (s', was_sent) = send_deduped v s text in
    if was_sent
    then (
      record s' {
        recent_actions = record_action s'.recent_actions (sent_record v r text);
        messages = s'.messages ++ routine_message v r text ∷ [];
      },
      delivered text,
    )
    else (s', suppressed text)

unfoldable pub finish_run : RunServices → RoutineRow → EngineState → List ℕ → EngineState × RunEnd
unfolding output_of deliver record_action
finish_run v r s answer = elim (output_of v answer) [
  | none ↦
      (record s { recent_actions = record_action s.recent_actions (silent_record v r) }, silent)
  | some text ↦ deliver v r s text
]

-- What comes after the timer and before the deferred end of the work.
unfoldable pub run_body : RunServices → RoutineRow → EngineState → EngineState × RunEnd
unfolding prompt_of finish_run
run_body v r s = elim (prompt_of v r) [
  | none ↦ (s, skipped)
  | some prompt ↦ elim (v.orchestrate (v.preamble ++ (10 ∷ 10 ∷ prompt))) [
    | none ↦ (s, orchestrator_failed)
    | some answer ↦ finish_run v r s answer
  ]
]

unfoldable pub start_work : RunServices → Bool → RoutineRow → WorkTracker → WorkTracker × ℕ
unfolding track_start set_cancel
start_work v start_ok r wt =
    let (wt', work_id) = track_start wt start_ok (bytes "routine") r.name v.timeout v.now in
    (set_cancel wt' work_id, work_id)

-- `executeSingleRoutine`; the flags say whether the database takes the time of the run, the row of
-- the work and its end.
unfoldable pub execute_single_routine :
    RunServices → Bool → Bool → Bool → RoutineRow → EngineState → EngineState × RunEnd
unfolding advance_timer start_work run_body track_end
execute_single_routine v advance_ok start_ok end_ok r s =
    let (wt, work_id) = start_work v start_ok r s.tracker in
    let (s', run_end) =
      run_body v r (record s { rows = advance_timer s.rows r.id v.now; tracker = wt }) in
    if advance_ok
    then (
      record s' {
        tracker =
            track_end s'.tracker end_ok work_id (if v.is_expired then failed else completed)
              v.after;
      },
      run_end,
    )
    else (s, not_advanced)
