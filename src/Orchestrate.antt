-- ===== src/Orchestrate.antt =====
-- orchestrate/loop.go, orchestrate/tools.go, orchestrate/thinking.go: the loop that asks the LLM for
-- a decision, runs the tool that it names and asks again.
-- Texts are bytes. A message that the loop formats is the data it is formatted from (`Note`). The
-- LLM, the tools, the JSON decoder and the regular expressions are the fields of `Env`; `chat` and
-- `exec` may answer differently at each point of the log. Logging and progress reports are left out,
-- and the slot callbacks around a tool are the event `executed`.
pub mod Tools
mod State
pub mod Notes
pub mod Turns
pub mod Limits
pub mod Unseen
use sokratos.Base.{
  ℕ, zero, suc, ◌+◌, Bool, true, false, ◌&&◌, ◌||◌, Option, none, some, List, [], ◌∷◌, ◌++◌, leb,
  ◌==◌, if◌then◌else◌, length, take, is_empty, bytes, bytes_eq, ℤ, positive_or,
}
use Tools.{Text, Shown, Hint, truncate_tool_result, tool_hint, is_tool_soft_error}
pub use State.*

module _ (cfg : LoopConfig) (env : Env) where
  abbrev max_result : ℕ
  max_result = positive_or 8000 cfg.max_tool_result_len

  overflow_hint_of : Text
  overflow_hint_of =
      if is_empty cfg.overflow_hint
      then bytes "Use specific queries or filters to narrow results"
      else cfg.overflow_hint

  unfoldable pub call_tool : LoopState → Text → Text → LoopState × Executed
  call_tool st name arguments =
      (record_event st (executed name), env.exec (length st.log) name arguments)

  unfoldable pub match_fallback : Option Fallback → Text → Option Fallback
  match_fallback none msg = none
  match_fallback (some fb) msg = if fb.triggers msg then some fb else none

  -- The outcome of the fallback tool; a background job is an error like any other here.
  unfoldable pub after_fallback : LoopState → Text → Text → Text → Executed → LoopState
  after_fallback st name msg tool (done result) =
      note st (fallback_result name msg tool (truncate_tool_result result max_result []))
  after_fallback st name msg tool (failed err) = note st (fallback_failed name msg tool err)
  after_fallback st name msg tool (background_job job) = note st (fallback_failed name msg tool job)

  unfoldable pub run_fallback : LoopState → Text → Text → Text → Fallback → LoopState
  unfolding call_tool after_fallback
  run_fallback st name arguments msg fb =
      let (st', out) = call_tool st fb.fallback_tool (fb.args_transform name arguments msg) in
      after_fallback st' name msg fb.fallback_tool out

  -- A hard error without a fallback.
  unfoldable pub hard_error : LoopState → Text → Text → LoopState
  hard_error st name err =
      let st' = record st { error_retries = suc st.error_retries } in
      note st' (
        if leb st'.error_retries max_tool_error_retries
        then tool_error st'.error_retries err (tool_hint name)
        else retries_exhausted err (tool_hint name))

  unfoldable pub soft_error : LoopState → Text → Text → LoopState
  soft_error st name result =
      note st (soft_failure (truncate_tool_result result max_result []) (tool_hint name))

  unfoldable pub succeed : LoopState → Text → LoopState
  unfolding overflow_hint_of
  succeed st result =
      note (record st { error_retries = 0 })
        (tool_result (truncate_tool_result result max_result overflow_hint_of))

  unfoldable pub or_fallback : LoopState → Decision → Text → Option Fallback → LoopState → LoopState
  unfolding run_fallback
  or_fallback st d msg none otherwise = otherwise
  or_fallback st d msg (some fb) otherwise = run_fallback st d.name d.arguments msg fb

  unfoldable pub after_tool : LoopState → Decision → Executed → LoopState × Option Result
  unfolding match_fallback or_fallback hard_error soft_error succeed
  after_tool st d (background_job job) = (st, some (background job))
  after_tool st d (failed err) = (
    or_fallback st d err (match_fallback (cfg.fallbacks d.name) err) (hard_error st d.name err),
    none,
  )
  after_tool st d (done result) = (
    if cfg.soft_error_detection && is_tool_soft_error env.trim_space env.to_lower result
        then or_fallback st d result (match_fallback (cfg.fallbacks d.name) result)
            (soft_error st d.name result)
        else succeed st result,
    none,
  )

  unfoldable pub unless_mandated : LoopState → Decision → Option Text → LoopState × Option Result
  unfolding call_tool after_tool
  unless_mandated st d (some task) = (st, some (background d.name))
  unless_mandated st d none =
      let (st', out) = call_tool st d.name d.arguments in after_tool st' d out

  unfoldable pub on_decision : LoopState → Content → Decision → LoopState × Option Result
  unfolding unless_mandated
  on_decision st stored d =
      let st' = say st (bytes "assistant") stored in
      if bytes_eq d.action (bytes "respond")
      then (st', some (responded d.text))
      else if bytes_eq d.action (bytes "tool")
      then (if cfg.has_executor
          then unless_mandated st' d (cfg.mandated_brain_tools d.name)
          else (note st' no_executor, none))
      else (st, some (unknown_action d.action))

  unfoldable pub parse : Text → Option Decision
  parse content = elim (env.decode content) [
    | some d ↦ some d
    | none ↦ env.decode (env.clean_llm_json content)
  ]

  unfoldable pub on_parsed : LoopState → Content → Option Decision → LoopState × Option Result
  unfolding on_decision
  on_parsed st stored none =
      let st' = record st { parse_retries = suc st.parse_retries } in
      (st', if leb st'.parse_retries max_parse_retries then none else some parse_failed)
  on_parsed st stored (some d) = on_decision (record st { parse_retries = 0 }) stored d

  unfoldable pub on_reply : LoopState → Option Text → LoopState × Option Result
  unfolding on_parsed parse
  on_reply st none = (st, some chat_failed)
  on_reply st (some reply) =
      let raw = env.trim_space reply in
      on_parsed st (stored_content env raw) (parse (env.strip_think_tags raw))

  -- One turn of the loop; `none` is its `continue`.
  unfoldable pub round_step : ℕ → LoopState → LoopState × Option Result
  unfolding on_reply
  round_step round st =
      let think = cfg.enable_thinking || cfg.first_round_thinking && round == 0 in
      let sent = stamp cfg.inject_timestamp (env.trim_fn st.messages) in
      on_reply (record_event st chatted) (env.chat (length st.log) sent think)

  -- The rounds that are left, with the number of the next one.
  unfoldable pub run_rounds : ℕ → ℕ → LoopState → LoopState × Result
  run_rounds zero round st = (st, too_many_rounds)
  run_rounds (suc left) round st = elim (round_step round st).1 [
    | some r ↦ ((round_step round st).0, r)
    | none ↦ run_rounds left (suc round) (round_step round st).0
  ]

  unfoldable pub run_loop : List Message → LoopState × Result
  unfolding run_rounds round_step
  run_loop messages =
      run_rounds (positive_or 15 cfg.max_rounds) 0
        (record { messages = messages; parse_retries = 0; error_retries = 0; log = [] })
