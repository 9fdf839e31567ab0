-- ===== src/Conversation/Trim.antt =====
-- The sliding window of engine/trim.go.
use sokratos.Base.{
  ℕ, zero, suc, ◌+◌, ◌-◌, ◌≤◌, ◌<◌, ◌≡◌, ◌⊎◌, inl, inr, true, false, List, ◌++◌, leb, length, take,
  drop, arith, dec_lt,
}
use sokratos.Conversation.{Message, is_tool_message, test_at, back_up, trim_messages}

-- Where the cut goes: not below 1, and from `c` only back over tool results, up to the first message
-- that is none.
abbrev pub IsBackedUp : List Message → ℕ → ℕ → Type 0
IsBackedUp messages c r =
    (1 ≤ r)
    × (r ≤ c)
    × ((r ≡ 1) ⊎ (test_at is_tool_message messages r ≡ false))
    × ((r ≡ c) ⊎ (test_at is_tool_message messages (suc r) ≡ true))

back_up-IsBackedUp :
    (messages : List Message) (c : ℕ) → 1 ≤ c → IsBackedUp messages c (back_up messages c)
unfolding back_up
back_up-IsBackedUp messages zero h = absurd (omega arith)
back_up-IsBackedUp messages (suc zero) h = ground arith
back_up-IsBackedUp messages (suc (suc c)) h =
    ground (arith, back_up-IsBackedUp messages (suc c) (omega arith))

trim_messages_long :
    (messages : List Message) (max_tail : ℕ)
    → max_tail + 1 < length messages
    → trim_messages messages max_tail
      ≡ take 1 messages ++ drop (back_up messages (length messages - max_tail)) messages
unfolding trim_messages
trim_messages_long messages max_tail h =
    let long : leb (length messages) (max_tail + 1) ≡ false = ground arith in
    let cut : leb (length messages - max_tail) 1 ≡ false = ground arith in rw (long, cut)

-- A conversation of at most one message and `max_tail` more is left alone. From a longer one the
-- first message is kept and all from a cut on, which lies at 1 or at a message that is no tool
-- result, keeps at least the last `max_tail` messages, and goes further back than that only over
-- tool results.
pub trim_messages_window :
    (messages : List Message) (max_tail : ℕ)
    → 0 < max_tail
    → ((length messages ≤ max_tail + 1) × (trim_messages messages max_tail ≡ messages))
      ⊎ ((max_tail + 1 < length messages)
          × ((r : ℕ) × (trim_messages messages max_tail ≡ take 1 messages ++ drop r messages)
              × IsBackedUp messages (length messages - max_tail) r))
unfolding trim_messages
trim_messages_window messages max_tail p = elim (dec_lt (max_tail + 1) (length messages)) [
  | yes h ↦ inr (
    h,
    (
      back_up messages (length messages - max_tail),
      trim_messages_long messages max_tail h,
      back_up-IsBackedUp messages (length messages - max_tail) (omega arith),
    ),
  )
  | no h ↦ inl (omega arith, ground arith)
]
