-- ===== src/Condense.antt =====
-- condense.go: the tool results of one turn, as a text for the triage and shortened for the
-- conversation. `decode_name` is the JSON decoder on the field `name`, the expressions and the test
-- of rune starts are arguments; the times of the messages are left out.
pub mod Kept
use sokratos.Base.{
  ℕ, zero, suc, ◌+◌, ◌-◌, ◌*◌, ◌/◌, ◌%◌, ◌^◌, ◌≤◌, ◌<◌, ◌≡◌, ◌≢◌, ◌↔◌, ◌⊎◌, inl, inr, refl, ap, sym,
  subst, ◌∙◌, Bool, true, false, not, ◌&&◌, ◌||◌, Option, none, some, List, [], ◌∷◌, ◌++◌, ltb, leb,
  ◌==◌, if◌then◌else◌, length, take, drop, get_elem?, is_empty, bytes, bytes_eq, bytes_eq_refl,
  bytes_eq_sound, ℤ, pos, negsuc, positive_or, Elem, All, Bool-cases, Option-cases, arith,
  length-append, has_prefix, length-snoc, length-take-le, length-drop,
}
use sokratos.Text.{truncate}
use sokratos.Text.Clean.{Patterns, clean_llm_json}
use sokratos.Conversation.{Message, has_role, test_at}

abbrev pub max_condensed_len : ℕ
max_condensed_len = 400

abbrev pub tool_result : List ℕ
tool_result = bytes "Tool result: "

abbrev pub is_result : Message → Bool
is_result m = has_role m (bytes "user") && has_prefix m.content tool_result

abbrev pub name_or : List ℕ → Option (List ℕ) → List ℕ
name_or default none = default
name_or default (some name) = if is_empty name then default else name

-- `strings.TrimPrefix(m.Content, "Tool result: ")`, where the prefix is there.
abbrev pub body_of : Message → List ℕ
body_of m = drop 13 m.content

module _ (rune_start : ℕ → Bool) (p : Patterns) (decode_name : List ℕ → Option (List ℕ)) where
  unfoldable pub extract_tool_name : List ℕ → List ℕ
  unfolding clean_llm_json
  extract_tool_name content = name_or (bytes "unknown") (decode_name (clean_llm_json p content))

  -- The name in the message before, if the assistant wrote it.
  unfoldable pub name_before : List ℕ → Option Message → List ℕ
  unfolding extract_tool_name
  name_before default none = default
  name_before default (some m) =
      if has_role m (bytes "assistant") then extract_tool_name m.content else default

  -- The loop of `summarizeToolContext`: the text, and whether a result was found.
  unfoldable pub summarize_from : Option Message → List Message → List ℕ × Bool
  unfolding name_before
  summarize_from before [] = ([], false)
  summarize_from before (m ∷ messages) =
      let (text, found) = summarize_from (some m) messages in
      if is_result m
      then (
        bytes "["
            ++ (name_before (bytes "tool") before
                ++ (bytes " result] " ++ (body_of m ++ (10 ∷ text)))),
        true,
      )
      else (text, found)

  unfoldable pub summarize_tool_context : List Message → List ℕ × Bool
  unfolding summarize_from
  summarize_tool_context messages =
      let (text, found) = summarize_from none messages in
      if found then (text, true) else ([], false)

  -- One message of the loop of `condenseToolResults`.
  unfoldable pub condense_one : Option Message → Message → Message
  unfolding name_before truncate
  condense_one before m =
      if not (is_result m) || has_prefix m.content (bytes "Tool error: ")
      then m
      else if leb (length (body_of m)) max_condensed_len
      then m
      else record {
        role = m.role;
        content =
            tool_result
            ++ (bytes "["
                ++ (name_before (bytes "unknown") before
                    ++ (bytes "] " ++ truncate rune_start (body_of m) max_condensed_len)));
      }

  -- The first `count` messages; the name is looked for in the messages as they are by then.
  unfoldable pub condense_from : ℕ → Option Message → List Message → List Message
  unfolding condense_one
  condense_from zero before messages = messages
  condense_from (suc count) before [] = []
  condense_from (suc count) before (m ∷ messages) =
      condense_one before m ∷ condense_from count (some (condense_one before m)) messages

  -- `for i := len(msgs) - 1; i >= 0; i--`: the last message of the assistant below `i`.
  unfoldable pub last_assistant : List Message → ℕ → Option ℕ
  last_assistant messages zero = none
  last_assistant messages (suc i) =
      let earlier = last_assistant messages i in
      if test_at (λ m. has_role m (bytes "assistant")) messages i then some i else earlier

  unfoldable pub condense_tool_results : List Message → List Message
  unfolding condense_from last_assistant
  condense_tool_results messages = elim (last_assistant messages (length messages)) [
    | none ↦ messages
    | some last ↦ condense_from last none messages
  ]
