-- ===== src/Orchestrate/Unseen.antt =====
-- Which messages of orchestrate/loop.go engine/trim.go takes for tool messages. The loop trims by
-- `TrimMessages` (llm/orchestrator.go).
use sokratos.Base.{◌≡◌, refl, Bool, true, false, List, ◌++◌, ℕ, bytes}
use sokratos.Conversation.{is_tool_message}
use sokratos.Orchestrate.{
  Note, no_executor, fallback_failed, fallback_result, tool_error, retries_exhausted, soft_failure,
  tool_result,
}

-- The bytes that each message of the loop begins with.
unfoldable pub opening : Note → List ℕ
opening no_executor = bytes "Tool result: no tool executor configured"
opening (fallback_failed name msg tool err) = bytes "Tool result [auto-fallback]: "
opening (fallback_result name msg tool result) = bytes "Tool result [auto-fallback]: "
opening (tool_error attempt err hint) = bytes "Tool error (attempt "
opening (retries_exhausted err hint) = bytes "Tool error (retries exhausted): "
opening (soft_failure result hint) = bytes "Tool result: "
opening (tool_result result) = bytes "Tool result: "

-- A plain result of a tool; not a hard error, nor the outcome of a fallback.
abbrev pub is_plain : Note → Bool
is_plain no_executor = true
is_plain (soft_failure result hint) = true
is_plain (tool_result result) = true
is_plain _ = false

-- `isToolMessage` knows the messages of the loop that answer a tool call by its plain result, and
-- takes every hard error and every fallback's outcome for words of the user.
pub is_tool_message-opening :
    (n : Note) (rest : List ℕ)
    → is_tool_message (record { role = bytes "user"; content = opening n ++ rest }) ≡ is_plain n
unfolding is_tool_message opening
is_tool_message-opening no_executor rest = refl
is_tool_message-opening (fallback_failed name msg tool err) rest = refl
is_tool_message-opening (fallback_result name msg tool result) rest = refl
is_tool_message-opening (tool_error attempt err hint) rest = refl
is_tool_message-opening (retries_exhausted err hint) rest = refl
is_tool_message-opening (soft_failure result hint) rest = refl
is_tool_message-opening (tool_result result) rest = refl
