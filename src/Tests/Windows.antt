-- ===== src/Tests/Windows.antt =====
-- Examples for engine/trim.go, engine/slide.go and engine/state.go.
use sokratos.Base.{
  ℕ, ◌+◌, ◌-◌, ◌<◌, ◌≤◌, ◌≡◌, ◌⊎◌, refl, Bool, true, false, List, [], ◌∷◌, ◌++◌, length, take, drop,
  bytes, arith, ℕ_discrete,
}
use sokratos.Conversation.{
  Message, is_tool_message, trim_messages, is_safe_boundary, safe_index, slide_and_archive_context,
}
use sokratos.Conversation.Trim.{IsBackedUp, trim_messages_window}
use sokratos.Conversation.Cut.{IsCut, safe_index-IsCut}
use sokratos.Conversation.Slide.{slide_appended}

abbrev system : Message
system = record { role = bytes "system"; content = bytes "You are Sokratos." }

abbrev asks : Message
asks = record { role = bytes "user"; content = bytes "Any mail?" }

abbrev calls : Message
calls = record { role = bytes "assistant"; content = bytes "{tool}" }

abbrev result : Message
result = record { role = bytes "user"; content = bytes "Tool result: none" }

abbrev replies : Message
replies = record { role = bytes "assistant"; content = bytes "No mail." }

abbrev talk : List Message
talk = system ∷ asks ∷ calls ∷ result ∷ replies ∷ []

trim_messages_window_example :
    ((length talk ≤ 2 + 1) × (trim_messages talk 2 ≡ talk))
    ⊎ ((2 + 1 < length talk)
        × ((r : ℕ) × (trim_messages talk 2 ≡ take 1 talk ++ drop r talk)
            × IsBackedUp talk (length talk - 2) r))
trim_messages_window_example = trim_messages_window talk 2 (omega arith)

-- The cut would fall on the tool result: it moves back to the call.
trimmed : trim_messages talk 2 ≡ system ∷ calls ∷ result ∷ replies ∷ []
unfolding trim_messages is_tool_message
trimmed = refl

-- A boundary is a message of the user that is no tool result, or an answer that is no tool call.
abbrev safe : Message → Bool
safe = is_safe_boundary (λ s. s) (λ s. true)

slid : safe_index safe (talk ++ asks ∷ replies ∷ []) 3 ≡ 4
unfolding safe_index is_safe_boundary
slid = refl

safe_index-IsCut_example : IsCut safe talk (length talk) (length talk - 2) (safe_index safe talk 2)
safe_index-IsCut_example = safe_index-IsCut safe talk 2 (omega arith) (omega arith)

-- The messages themselves serve for a fingerprint without collisions.
messages_discrete : Discrete (List Message)
messages_discrete = hlevel ℕ_discrete

abbrev same : List Message → List Message → Bool
same xs ys = elim (messages_discrete xs ys) [ yes e ↦ true | no d ↦ false ]

same_injective : (xs ys : List Message) → same xs ys ≡ true → xs ≡ ys
same_injective xs ys h = by_case (messages_discrete xs ys) h
  where
    by_case : (d : Dec (xs ≡ ys)) → (elim d [ yes e ↦ true | no d ↦ false ]) ≡ true → xs ≡ ys
    by_case (yes e) h = e
    by_case (no d) h = cc

same_reflexive : (xs : List Message) → same xs xs ≡ true
same_reflexive xs = by_case (messages_discrete xs xs)
  where
    by_case : (d : Dec (xs ≡ xs)) → (elim d [ yes e ↦ true | no d ↦ false ]) ≡ true
    by_case (yes e) = refl
    by_case (no d) = absurd (d refl)

slide_appended_example :
    slide_and_archive_context (λ xs. xs) same safe talk (talk ++ asks ∷ []) 2
    ≡ (take 1 talk ++ (drop (safe_index safe talk 2) talk ++ asks ∷ []), true)
slide_appended_example =
    slide_appended (λ xs. xs) same same_reflexive safe talk (asks ∷ []) 2 (omega arith)
      (omega arith)

-- A conversation of tool calls and results only.
abbrev toolbound : List Message
toolbound = system ∷ calls ∷ result ∷ calls ∷ result ∷ []
