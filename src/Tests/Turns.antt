-- ===== src/Tests/Turns.antt =====
-- Examples for condense.go, pipelines/consolidate_memory.go and pipelines/consolidate_profile.go.
use sokratos.Base.{
  ℕ, zero, suc, ◌+◌, ◌-◌, ◌≤◌, ◌<◌, ◌≡◌, ◌⊎◌, refl, Bool, true, false, Option, none, some, List, [],
  ◌∷◌, ◌++◌, ◌==◌, if◌then◌else◌, length, take, drop, bytes, bytes_eq, All, arith,
}
use sokratos.Text.Clean.{Patterns}
use sokratos.Conversation.{Message, test_at, back_up, max_one, trim_messages}
use sokratos.Condense.{condense_tool_results, summarize_tool_context}
use sokratos.Condense.Kept.{
  is_assistant, Kept, condense_tool_results-Kept, trim_messages-condense_tool_results,
}
use sokratos.Consolidate.{
  HighMemory, BatchEnd, batch_fails, applied, consolidate_core, memory_line, Memory, MemoryTable,
  MemoryMerge, commits, commit_fails, apply_memory_merges,
}
use sokratos.Registry.{lookup}
use sokratos.Consolidate.Profile.{
  object_items, Item, object, ProfileValue, array, other, name_key, people_key, consolidated_key,
  merge_object_array, extra_entries, refused, null, parsed, Parsed, merged, panics, ProfileEnd,
  merge_profile_json, apply_updates, validate_profile, merge_profile,
}
use sokratos.Registry.Maps.{overwritten}
use sokratos.Consolidate.Card.{people, IsCard, merge_profile-IsCard}
use sokratos.Consolidate.Superseded.{IsTable, AreKept, apply_memory_merges-IsTable}

abbrev patterns : Patterns
patterns = record {
  trim_space = λ s. s;
  think_tag = λ s. s;
  code_fence = λ s. none;
  decimal_space = λ s. s;
  trailing_dot = λ s. s;
  trailing_comma = λ s. s;
}

-- A decoder that finds no name in an empty text and `search` in any other.
abbrev decode : List ℕ → Option (List ℕ)
decode [] = none
decode (c ∷ s) = some (bytes "search")

abbrev ascii : ℕ → Bool
ascii c = true

abbrev repeat : ℕ → List ℕ
repeat zero = []
repeat (suc n) = b'x' ∷ repeat n

abbrev said : List ℕ → List ℕ → Message
said role content = record { role = role; content = content }

-- A question, a call, a long result, the answer, and a result that has not been used yet.
abbrev turn : List Message
turn =
    said (bytes "user") (bytes "weather?")
    ∷ said (bytes "assistant") (bytes "{\"name\":\"search\"}")
    ∷ said (bytes "user") (bytes "Tool result: " ++ repeat 500)
    ∷ said (bytes "assistant") (bytes "sunny")
    ∷ said (bytes "user") (bytes "Tool result: " ++ repeat 500)
    ∷ []

condense_tool_results-Kept_example :
    (All (λ m. is_assistant m ≡ false) turn
      × (condense_tool_results ascii patterns decode turn ≡ turn))
    ⊎ ((last : ℕ) × (test_at is_assistant turn last ≡ true)
        × All (λ m. is_assistant m ≡ false) (drop (suc last) turn)
        × Kept ascii last turn (condense_tool_results ascii patterns decode turn))
condense_tool_results-Kept_example = condense_tool_results-Kept ascii patterns decode turn

trim_messages-condense_tool_results_example :
    let condensed = condense_tool_results ascii patterns decode turn in
    ((length turn ≤ 2 + 1) × (trim_messages condensed 2 ≡ condensed))
    ⊎ ((2 + 1 < length turn)
        × (trim_messages condensed 2
            ≡ take 1 condensed ++ drop (back_up turn (max_one (length turn - 2))) condensed))
trim_messages-condense_tool_results_example =
    trim_messages-condense_tool_results ascii patterns decode turn 2

-- No message is lost.
condensed_length : length (condense_tool_results ascii patterns decode turn) ≡ 5
unfolding condense_tool_results
condensed_length = refl

triage_text :
    summarize_tool_context ascii patterns decode
      (said (bytes "assistant") [] ∷ said (bytes "user") (bytes "Tool result: ok") ∷ [])
    ≡ (bytes "[unknown result] ok" ++ 10 ∷ [], true)
unfolding summarize_tool_context
triage_text = refl

abbrev show_digit : ℕ → List ℕ
show_digit n = (48 + n) ∷ []

abbrev memories : List HighMemory
memories =
    record { id = 1; summary = repeat 300 }
    ∷ record { id = 2; summary = repeat 300 }
    ∷ record { id = 3; summary = repeat 100 }
    ∷ []

-- The first batch works and the second does not.
abbrev second_fails : ℕ → List ℕ → List HighMemory → BatchEnd
second_fails left profile batch = if left == 3 then applied (bytes "{}") 1 else batch_fails

two_batches :
    (consolidate_core show_digit (λ left profile. 0) second_fails 400 [] memories).total ≡ 1
unfolding consolidate_core memory_line
two_batches = refl

abbrev memory : ℕ → Memory ℕ
memory id = record { id = id; summary = []; salience = id; superseded_by = none }

abbrev table : MemoryTable ℕ
table = record { rows = memory 1 ∷ memory 2 ∷ memory 3 ∷ []; next_id = 4 }

abbrev merge : List ℕ → MemoryMerge
merge ids = record { source_ids = ids; merged_summary = bytes "both" }

abbrev first_or_five : List ℕ → ℕ
first_or_five [] = 5
first_or_five (s ∷ saliences) = s

apply_memory_merges-IsTable_example :
    let t' =
      (apply_memory_merges
        (λ s. s)
        first_or_five
        (1 ∷ 2 ∷ [])
        0
        table
        ((merge (1 ∷ 2 ∷ []), commits) ∷ (merge (1 ∷ 1 ∷ []), commit_fails) ∷ [])).0 in
    IsTable t' × AreKept (1 ∷ 2 ∷ []) 4 (memory 1 ∷ memory 2 ∷ memory 3 ∷ []) t'.rows
apply_memory_merges-IsTable_example =
    apply_memory_merges-IsTable (λ s. s) first_or_five (1 ∷ 2 ∷ []) 0 table
      ((merge (1 ∷ 2 ∷ []), commits) ∷ (merge (1 ∷ 1 ∷ []), commit_fails) ∷ []) (omega arith)
      (omega arith)

-- One memory named twice is a merge of its own, and counts as two.
merged_with_itself :
    let out =
      apply_memory_merges
        (λ s. s)
        first_or_five
        (3 ∷ [])
        0
        table
        ((merge (3 ∷ 3 ∷ []), commits) ∷ []) in
    (out.1 ≡ 2) × (length out.0.rows ≡ 4)
unfolding apply_memory_merges
merged_with_itself = (refl, refl)

-- The same merge twice leaves two memories of the same text, and counts each source twice.
merged_twice :
    let out =
      apply_memory_merges
        (λ s. s)
        first_or_five
        (1 ∷ 2 ∷ [])
        0
        table
        ((merge (1 ∷ 2 ∷ []), commits) ∷ (merge (1 ∷ 2 ∷ []), commits) ∷ []) in
    (out.1 ≡ 4) × (length out.0.rows ≡ 5)
unfolding apply_memory_merges
merged_twice = (refl, refl)

abbrev person : List ℕ → List ℕ → Item (List ℕ)
person name role = object ((name_key, name) ∷ (bytes "role", role) ∷ [])

abbrev profile : List (List ℕ × ProfileValue (List ℕ))
profile =
    (name_key, other (bytes "Ann"))
    ∷ (people_key, array (person (bytes "Bob") (bytes "friend") ∷ []))
    ∷ (bytes "mood", other (bytes "calm"))
    ∷ []

abbrev updates : List (List ℕ × ProfileValue (List ℕ))
updates =
    (
      people_key,
      array (person (bytes "Bob") (bytes "boss") ∷ person (bytes "Cleo") (bytes "cat") ∷ []),
    )
    ∷ (consolidated_key, other (bytes "today"))
    ∷ []

merge_profile-IsCard_example :
    (validate_profile (merge_profile (λ v. v) profile updates) profile ≡ true)
    × IsCard (merge_profile (λ v. v) profile updates)
    × (extra_entries (merge_profile (λ v. v) profile updates) ≡ [])
    × (lookup (merge_profile (λ v. v) profile updates) name_key
        ≡ overwritten (lookup updates name_key) (lookup profile name_key))
    × (lookup (merge_profile (λ v. v) profile updates) consolidated_key
        ≡ overwritten (lookup updates consolidated_key) (lookup profile consolidated_key))
unfolding lookup
merge_profile-IsCard_example = merge_profile-IsCard (λ v. v) profile updates (refl, (refl, tt))

-- Bob's entry is overwritten field by field, and Cleo's comes after it.
people_upserted :
    people (merge_profile (λ v. v) profile updates)
    ≡ ((bytes "role", bytes "boss") ∷ (name_key, bytes "Bob") ∷ [])
      ∷ ((name_key, bytes "Cleo") ∷ (bytes "role", bytes "cat") ∷ [])
      ∷ []
unfolding merge_profile apply_updates merge_object_array lookup object_items
people_upserted = refl

-- `null`, and any other text for the profile.
abbrev parse_profile : List ℕ → Parsed (List ℕ)
parse_profile text =
    if bytes_eq text (bytes "null")
    then null
    else if bytes_eq text (bytes "updates")
    then parsed updates
    else refused

abbrev marshal : ProfileValue (List ℕ) → Option (List ℕ)
marshal (array items) = some (bytes "[]")
marshal (other v) = some v

merge_json : List ℕ → ProfileEnd
merge_json current =
    merge_profile_json (λ k. k) marshal (λ v. v) parse_profile current (bytes "updates")

-- A stored null panics; a text that does not decode is an empty profile.
null_panics : merge_json (bytes "null") ≡ panics
unfolding merge_json merge_profile_json
null_panics = refl

fresh_profile :
    merge_json []
    ≡ merged (
        bytes "{"
        ++ (10 ∷ bytes "  important_people: [],"
            ++ (10 ∷ bytes "  last_consolidated: today" ++ (10 ∷ bytes "}"))))
unfolding merge_json merge_profile_json object_items
fresh_profile = refl
