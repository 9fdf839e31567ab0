-- ===== src/Tests/Loop.antt =====
-- Examples for orchestrate/loop.go.
use sokratos.Base.{
  ◌*◌, ◌≤◌, ◌≡◌, refl, true, false, none, some, List, [], ◌∷◌, ◌++◌, ◌==◌, if◌then◌else◌, bytes,
  bytes_eq, pos, All,
}
use sokratos.Conversation.{is_tool_message}
use sokratos.Orchestrate.{
  given, tool_error, Message, Decision, done, failed, Fallback, LoopConfig, Env, chatted, executed,
  responded, run_loop,
}
use sokratos.Orchestrate.Tools.{no_hint}
use sokratos.Orchestrate.Limits.{
  IsDialogue, IsAllowed, chats, calls, run_loop_bounded, run_loop-IsDialogue, run_loop_allowed,
}
use sokratos.Orchestrate.Unseen.{opening, is_plain, is_tool_message-opening}

-- The LLM asks for the mail once, and then answers.
abbrev asks : Decision
asks = record { action = bytes "tool"; name = bytes "mail"; arguments = []; text = [] }

abbrev answers : Decision
answers = record { action = bytes "respond"; name = []; arguments = []; text = bytes "None." }

abbrev llm : Env
llm = record {
  chat = λ at sent think. some (if at == 0 then bytes "call" else bytes "say");
  exec = λ at name arguments. if bytes_eq name (bytes "mail") then failed (bytes "no") else done [];
  trim_fn = λ ms. ms;
  trim_space = λ s. s;
  to_lower = λ s. s;
  strip_think_tags = λ s. s;
  extract_think_content = λ s. [];
  clean_llm_json = λ s. s;
  decode = λ s. if bytes_eq s (bytes "call") then some asks else some answers;
}

abbrev to_file : Fallback
to_file = record {
  fallback_tool = bytes "file";
  args_transform = λ name arguments msg. arguments;
  triggers = λ msg. true;
}

abbrev settings : LoopConfig
settings = record {
  max_rounds = pos 3;
  max_tool_result_len = pos 0;
  overflow_hint = [];
  enable_thinking = false;
  first_round_thinking = true;
  inject_timestamp = true;
  soft_error_detection = true;
  has_executor = true;
  mandated_brain_tools = λ name. if bytes_eq name (bytes "plan") then some (bytes "x") else none;
  fallbacks = λ name. if bytes_eq name (bytes "mail") then some to_file else none;
}

abbrev question : List Message
question = record { role = bytes "user"; content = given (bytes "Any mail?") } ∷ []

-- The tool fails, its fallback runs, and the second round ends with the answer.
fell_back :
    ((run_loop settings llm question).1 ≡ responded (bytes "None."))
    × ((run_loop settings llm question).0.log
        ≡ chatted ∷ executed (bytes "mail") ∷ executed (bytes "file") ∷ chatted ∷ [])
unfolding run_loop
fell_back = (refl, refl)

run_loop_bounded_example :
    (chats (run_loop settings llm question).0.log ≤ 3)
    × (calls (run_loop settings llm question).0.log ≤ 2 * 3)
run_loop_bounded_example = run_loop_bounded settings llm question

run_loop-IsDialogue_example :
    (said : List Message) × ((run_loop settings llm question).0.messages ≡ question ++ said)
    × IsDialogue said
run_loop-IsDialogue_example = run_loop-IsDialogue settings llm question

run_loop_allowed_example : All (IsAllowed settings) (run_loop settings llm question).0.log
run_loop_allowed_example = run_loop_allowed settings llm question

is_tool_message-opening_example :
    is_tool_message (record {
      role = bytes "user";
      content = opening (tool_error 1 (bytes "no") no_hint) ++ bytes "1/3): no";
    })
    ≡ is_plain (tool_error 1 (bytes "no") no_hint)
is_tool_message-opening_example =
    is_tool_message-opening (tool_error 1 (bytes "no") no_hint) (bytes "1/3): no")
