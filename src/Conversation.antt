-- ===== src/Conversation.antt =====
-- engine/trim.go and the window of engine/slide.go and engine/state.go: which messages of the
-- conversation are kept. A message is its role and its content, as bytes; image parts and times are
-- left out. `strings.TrimSpace`, the JSON decoder and SHA-256 are arguments.
-- `slide_and_archive_context` reads the number of messages and the messages as one snapshot.
-- Every index stays in range where `max_tail` and `max_messages` are at least 1.
pub mod Trim
pub mod Cut
pub mod Slide
pub mod Wire
pub mod State
use sokratos.Base.{
  ℕ, zero, suc, ◌+◌, ◌-◌, Bool, true, false, not, ◌&&◌, ◌||◌, Option, none, some, List, [], ◌∷◌,
  ◌++◌, ltb, leb, ◌==◌, if◌then◌else◌, length, take, drop, get_elem?, get_last?, is_empty, bytes,
  has_prefix, bytes_eq,
}

pub record Message : Type 0 where
  pub role : List ℕ
  pub content : List ℕ

abbrev pub has_role : Message → List ℕ → Bool
has_role m r = bytes_eq m.role r

unfoldable pub is_tool_message : Message → Bool
is_tool_message m =
    has_role m (bytes "tool")
    || has_role m (bytes "user")
      && (has_prefix m.content (bytes "Tool result:") || has_prefix m.content (bytes "Tool error:"))

-- `messages[i]` tested.
abbrev pub test_at : (Message → Bool) → List Message → ℕ → Bool
test_at p messages i = elim (get_elem? messages i) [ none ↦ false | some m ↦ p m ]

-- `for cutoff > 1 && isToolMessage(messages[cutoff]) { cutoff-- }`.
unfoldable pub back_up : List Message → ℕ → ℕ
back_up messages zero = zero
back_up messages (suc c) =
    if ltb 1 (suc c) && test_at is_tool_message messages (suc c) then back_up messages c else suc c

abbrev pub max_one : ℕ → ℕ
max_one n = if leb n 1 then 1 else n

unfoldable pub trim_messages : List Message → ℕ → List Message
unfolding back_up
trim_messages messages max_tail =
    if leb (length messages) (max_tail + 1)
    then messages
    else (let cutoff = back_up messages (max_one (length messages - max_tail)) in
        take 1 messages ++ drop cutoff messages)

abbrev pub default_max_tail : ℕ
default_max_tail = 12

-- What follows the first newline, or the text itself without one.
unfoldable pub after_newline : List ℕ → List ℕ → List ℕ
after_newline whole [] = whole
after_newline whole (c ∷ s) = if c == 10 then s else after_newline whole s

-- `strings.TrimSuffix(s, "```")`.
unfoldable pub trim_fence : List ℕ → List ℕ
trim_fence s = if bytes_eq (drop (length s - 3) s) (bytes "```") then take (length s - 3) s else s

abbrev pub is_byte : Option ℕ → ℕ → Bool
is_byte none b = false
is_byte (some c) b = c == b

-- `has_name` decodes a JSON object and looks for the key `name`.
module _ (trim_space : List ℕ → List ℕ) (has_name : List ℕ → Bool) where
  unfoldable pub is_tool_call_content : List ℕ → Bool
  unfolding after_newline trim_fence
  is_tool_call_content content =
      let t = trim_space content in
      let s =
        if has_prefix t (bytes "```") then trim_space (trim_fence (after_newline t t)) else t in
      if is_empty s || not (is_byte (get_elem? s 0) b'{') || not (is_byte (get_last? s) b'}')
      then false
      else has_name s

  unfoldable pub is_safe_boundary : Message → Bool
  unfolding is_tool_call_content is_tool_message
  is_safe_boundary m =
      if has_role m (bytes "user")
      then not (is_tool_message m)
      else if has_role m (bytes "assistant")
      then not (is_tool_call_content m.content)
      else false

-- `for i := naiveCutoff; i > 1; i--`: the first boundary that `safe` accepts.
unfoldable pub walk_backward : (Message → Bool) → List Message → ℕ → Option ℕ
walk_backward safe messages zero = none
walk_backward safe messages (suc i) =
    if ltb 1 (suc i)
    then (if test_at safe messages (suc i) then some (suc i) else walk_backward safe messages i)
    else none

-- `for i := naiveCutoff + 1; i < len(msgs)-1; i++`, with the number of turns left.
unfoldable pub walk_forward : (Message → Bool) → List Message → ℕ → ℕ → Option ℕ
walk_forward safe messages zero i = none
walk_forward safe messages (suc turns) i =
    let later = walk_forward safe messages turns (suc i) in
    if test_at safe messages i then some i else later

abbrev pub or_else : Option ℕ → Option ℕ → Option ℕ
or_else (some i) o = some i
or_else none o = o

abbrev pub or_index : Option ℕ → ℕ → ℕ
or_index (some i) d = i
or_index none d = d

-- `safeIndex` of `SlideAndArchiveContext`, over the limit.
unfoldable pub safe_index : (Message → Bool) → List Message → ℕ → ℕ
unfolding walk_backward walk_forward
safe_index safe messages max_messages =
    let naive = length messages - max_messages in
    let forward = walk_forward safe messages (length messages - 1 - (naive + 1)) (naive + 1) in
    or_index (or_else (walk_backward safe messages naive) forward) naive

-- `msgs[1:cutoff]`.
abbrev pub segment : ℕ → List Message → List Message
segment cutoff messages = drop 1 (take cutoff messages)

-- The fingerprint and its comparison.
module _ {ℓ} {F : Type ℓ} (fingerprint : List Message → F) (same : F → F → Bool) where
  unfoldable pub slide_messages : List Message → ℕ → F → List Message × Bool
  slide_messages messages cutoff expected =
      if leb (length messages) cutoff
      then (messages, false)
      else if same expected (fingerprint (segment cutoff messages))
      then (take 1 messages ++ drop cutoff messages, true)
      else (messages, false)

  -- `SlideAndArchiveContext` without the archive: the cut is found on a snapshot, and applied to the
  -- messages that are there by then.
  unfoldable pub slide_and_archive_context :
      (Message → Bool) → List Message → List Message → ℕ → List Message × Bool
  slide_and_archive_context safe snapshot current max_messages =
      if leb (length snapshot) max_messages
      then (current, false)
      else (let cutoff = safe_index safe snapshot max_messages in
          slide_messages current cutoff (fingerprint (segment cutoff snapshot)))
