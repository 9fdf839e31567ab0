-- ===== src/Tests/States.antt =====
-- Examples for engine/state.go and routines/args.go.
use sokratos.Base.{
  ℕ, ◌+◌, ◌-◌, ◌≡◌, ◌⊎◌, inl, inr, refl, true, false, Option, none, some, List, [], ◌∷◌, ◌++◌, map,
  length, drop, bytes, ◌*◌, ◌/◌, ◌%◌, ◌^◌, arith,
}
use sokratos.Registry.{lookup}
use sokratos.Conversation.Wire.{
  plain_text, part_array, raw_content, LlmMessage, WireMessage, of_wire, to_wire,
  strip_vision_parts,
}
use sokratos.Conversation.State.{
  StateManager, new_state_manager, append_message, snapshot_of, load_conversation_snapshot,
  trim_stale,
}
use sokratos.Conversation.State.Prefs.{
  PrefTable, PrefCall, sets, deletes, refreshes, after_calls, Agrees, after_calls-Agrees,
}
use sokratos.Conversation.State.Snapshots.{
  Store, Reach, here, next, appends, reads, stores, stale_snapshot,
}
use sokratos.Conversation.State.Restart.{
  IsSnapshot, snapshot_restores, trim_stale-load_conversation_snapshot,
}
use sokratos.Routines.Args.{
  Calendar, now, Offset, hours, expand_string, expand_string_at, base_time,
}
use sokratos.Routines.Args.Moves.{IsMoved}
use sokratos.Routines.Args.Templates.{
  template_text, expand_string_at-template_text, expand_string-expand_string_at,
}

abbrev language : PrefTable
language = (bytes "language", bytes "en") ∷ []

abbrev manager : StateManager
manager = new_state_manager (λ row. true) true true language

abbrev calls : List PrefCall
calls =
    sets true (bytes "language") (bytes "de")
    ∷ deletes false (bytes "name")
    ∷ refreshes (λ row. false) true
    ∷ []

after_calls-Agrees_example : Agrees (bytes "language") (after_calls (manager, language) calls)
unfolding new_state_manager lookup
after_calls-Agrees_example =
    after_calls-Agrees calls (manager, language) (bytes "language") ((refl, tt), refl, refl)
      (inr refl, (inl refl, (tt, tt)))

-- A preference whose deletion the database refuses is back after the next reload.
deletion_undone :
    lookup
      (after_calls
        (manager, language)
        (deletes false (bytes "language") ∷ refreshes (λ row. true) true ∷ [])).0.state.user_prefs
      (bytes "language")
    ≡ some (bytes "en")
unfolding after_calls new_state_manager lookup
deletion_undone = refl

abbrev empty : StateManager
empty = new_state_manager (λ row. true) true true []

abbrev question : LlmMessage
question = record { role = bytes "user"; content = bytes "hi"; parts = []; time = 5 }

abbrev nothing_stored : Store
nothing_stored = record { sm = empty; started = 0; unsent = []; snapshot = none }

-- The number of the messages.
abbrev count : List WireMessage → Option (List ℕ)
count messages = some (length messages ∷ [])

stale_snapshot_example : Reach count nothing_stored (record nothing_stored {
  sm = append_message 9 question (append_message 7 question empty);
  snapshot = some (1 ∷ []);
})
unfolding snapshot_of append_message new_state_manager strip_vision_parts
stale_snapshot_example =
    stale_snapshot count nothing_stored question question 7 9 (1 ∷ []) (2 ∷ []) refl refl refl refl

-- Roles and contents, each behind its length.
abbrev json : List WireMessage → Option (List ℕ)
json [] = some []
json (w ∷ messages) = elim (json messages) [
  | none ↦ none
  | some rest ↦ elim w.content [
    | plain_text s ↦ some (length w.role ∷ (w.role ++ (length s ∷ (s ++ rest))))
    | part_array parts ↦ none
    | raw_content s ↦ none
  ]
]

abbrev photo : LlmMessage
photo = record {
  role = bytes "user";
  content = bytes "look";
  parts = record { kind = bytes "text"; text = bytes "look"; image_url = none } ∷ [];
  time = 9;
}

abbrev two : StateManager
two = append_message 8 photo (append_message 7 question empty)

abbrev stored_text : List ℕ
stored_text = (4 ∷ bytes "user") ++ (2 ∷ bytes "hi") ++ (4 ∷ bytes "user") ++ (4 ∷ bytes "look")

-- Two messages are appended; one goroutine reads and stores.
abbrev shown : Store
shown = record { sm = two; started = 1; unsent = []; snapshot = some stored_text }

shown_reached : Reach json nothing_stored shown
unfolding snapshot_of append_message new_state_manager strip_vision_parts to_wire
shown_reached =
    let one = record nothing_stored { sm = append_message 7 question empty; started = 1 } in
    let waiting = record shown { started = 2; snapshot = none } in
    next
      (next (next (next here (appends nothing_stored 7 question)) (appends one 8 photo))
        (reads waiting (omega arith)))
      (stores (record shown { unsent = stored_text ∷ []; snapshot = none }) [] [] stored_text refl)

snapshot_restores_example :
    (shown.snapshot ≡ none)
    ⊎ ((u : Store) × Reach json nothing_stored u
        × Reach json u shown
        × IsSnapshot json u.sm (some stored_text))
snapshot_restores_example = snapshot_restores json nothing_stored shown refl shown_reached

abbrev user_text : List ℕ → WireMessage
user_text s = record { role = bytes "user"; content = plain_text s }

abbrev five : List WireMessage
five =
    user_text (bytes "a")
    ∷ user_text (bytes "b")
    ∷ user_text (bytes "c")
    ∷ user_text (bytes "d")
    ∷ user_text (bytes "e")
    ∷ []

trim_stale-load_conversation_snapshot_example :
    trim_stale
      (2 ^ 60)
      (load_conversation_snapshot (λ text. some five) (some (bytes "[]")) empty).messages
    ≡ map of_wire five
unfolding new_state_manager
trim_stale-load_conversation_snapshot_example =
    trim_stale-load_conversation_snapshot (λ text. some five) empty (bytes "[]") five (2 ^ 60) refl
      refl

-- The same messages with their times are cut to the last four.
times_kept :
    trim_stale (2 ^ 60) (map (λ w. record (of_wire w) { time = 7 }) five)
    ≡ map (λ w. record (of_wire w) { time = 7 }) (drop 1 five)
unfolding trim_stale
times_kept = refl

-- A calendar of seconds from midnight, a time printed as one byte.
abbrev seconds : Calendar ℕ
seconds = record {
  midnight = λ t. t - t % 86_400;
  add_days = λ t n. t + 86_400 * n;
  add = λ t n. t + n / 1_000_000_000;
  format = λ t. t ∷ [];
}

abbrev in_two_hours : Option Offset
in_two_hours = some (record { is_negative = false; first_digit = b'2'; digits = []; unit = hours })

expand_string_at-template_text_example :
    (t' : ℕ) × IsMoved seconds in_two_hours (base_time seconds now 50) t'
    × (expand_string_at seconds 50
          (bytes "from " ++ (template_text now in_two_hours ++ bytes " on"))
        ≡ bytes "from " ++ (seconds.format t' ++ expand_string_at seconds 50 (bytes " on")))
expand_string_at-template_text_example =
    expand_string_at-template_text seconds 50 (bytes "from ") now in_two_hours (bytes " on")
      (refl, (refl, (refl, (refl, (refl, tt))))) (refl, tt)

in_two_hours_expanded :
    expand_string seconds 50 (bytes "from {{now+2h}} on") ≡ bytes "from " ++ (7250 ∷ bytes " on")
unfolding expand_string
in_two_hours_expanded = refl

expand_string-expand_string_at_example :
    expand_string seconds 50 (bytes "{{today}}") ≡ expand_string_at seconds 50 (bytes "{{today}}")
expand_string-expand_string_at_example =
    expand_string-expand_string_at seconds 50 (bytes "{{today}}")

-- 200,000,000 minutes are more nanoseconds than 64 bits hold: the time is moved back.
wraps :
    expand_string seconds 50 (bytes "{{now+200000000m}}")
    ≡ (50 + ((200_000_000 * 60_000_000_000) % 2 ^ 64) / 1_000_000_000) ∷ []
unfolding expand_string
wraps = refl
