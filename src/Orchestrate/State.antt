-- ===== src/Orchestrate/State.antt =====
-- The data of orchestrate/orchestrate.go and orchestrate/loop.go, with what goes into a message.
use sokratos.Base.{
  ℕ, Bool, ◌&&◌, Option, List, [], ◌∷◌, ◌++◌, if◌then◌else◌, is_empty, bytes, bytes_eq, ℤ,
}
use sokratos.Orchestrate.Tools.{Text, Shown, Hint}

pub data Note : Type 0 where
  no_executor : Note
  fallback_failed : Text → Text → Text → Text → Note
  fallback_result : Text → Text → Text → Shown → Note
  tool_error : ℕ → Text → Hint → Note
  retries_exhausted : Text → Hint → Note
  soft_failure : Shown → Hint → Note
  tool_result : Shown → Note

-- A content is given from outside, noted by the loop, or has the time appended.
pub data Content : Type 0 where
  given : Text → Content
  reasoned : Text → Text → Content
  noted : Note → Content
  stamped : Content → Content

pub record Message : Type 0 where
  pub role : Text
  pub content : Content

pub record Decision : Type 0 where
  pub action : Text
  pub name : Text
  pub arguments : Text
  pub text : Text

pub data Executed : Type 0 where
  done : Text → Executed
  failed : Text → Executed
  background_job : Text → Executed

pub record Fallback : Type 0 where
  pub fallback_tool : Text
  pub args_transform : Text → Text → Text → Text
  pub triggers : Text → Bool

pub record LoopConfig : Type 0 where
  pub max_rounds : ℤ
  pub max_tool_result_len : ℤ
  pub overflow_hint : Text
  pub enable_thinking : Bool
  pub first_round_thinking : Bool
  pub inject_timestamp : Bool
  pub soft_error_detection : Bool
  pub has_executor : Bool
  pub mandated_brain_tools : Text → Option Text
  pub fallbacks : Text → Option Fallback

pub record Env : Type 0 where
  pub chat : ℕ → List Message → Bool → Option Text
  pub exec : ℕ → Text → Text → Executed
  pub trim_fn : List Message → List Message
  pub trim_space : Text → Text
  pub to_lower : Text → Text
  pub strip_think_tags : Text → Text
  pub extract_think_content : Text → Text
  pub clean_llm_json : Text → Text
  pub decode : Text → Option Decision

pub data Event : Type 0 where
  chatted : Event
  executed : Text → Event

pub record LoopState : Type 0 where
  pub messages : List Message
  pub parse_retries : ℕ
  pub error_retries : ℕ
  pub log : List Event

pub data Result : Type 0 where
  responded : Text → Result
  chat_failed parse_failed too_many_rounds : Result
  unknown_action : Text → Result
  background : Text → Result

abbrev pub max_parse_retries : ℕ
max_parse_retries = 3

abbrev pub max_tool_error_retries : ℕ
max_tool_error_retries = 3

abbrev pub say : LoopState → Text → Content → LoopState
say st role content = record st {
  messages = st.messages ++ record { role = role; content = content } ∷ [];
}

abbrev pub note : LoopState → Note → LoopState
note st n = say st (bytes "user") (noted n)

abbrev pub record_event : LoopState → Event → LoopState
record_event st e = record st { log = st.log ++ e ∷ [] }

-- `processThinking`: the stored content; the other is `strip_think_tags`.
abbrev pub stored_content : Env → Text → Content
stored_content env raw =
    let thinking = env.extract_think_content raw in
    let content = env.strip_think_tags raw in
    if is_empty thinking then given content else reasoned thinking content

-- The system prompt with the current time.
abbrev pub stamp : Bool → List Message → List Message
stamp inject [] = []
stamp inject (m ∷ ms) =
    if inject && bytes_eq m.role (bytes "system")
    then record m { content = stamped m.content } ∷ ms
    else m ∷ ms
