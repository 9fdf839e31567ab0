-- ===== src/Conversation/State.antt =====
-- The state of the agent in engine/state.go with its two tools, tools/preferences.go and
-- tools/update_state.go, and the staleness trim of message_loop.go.
-- Times are nanoseconds, and 0 is Go's zero time; identifiers are not negative. A map is an
-- association list, in the order in which Go goes through it, and UserPrefs, which the constructor
-- makes and nothing sets to nil, is one. The table user_preferences is a list of its rows. Whether the
-- database answers a statement is an argument, and so is which rows can be scanned. The trimmed texts
-- and the printed numbers are arguments, and so is the JSON of a list of wire messages. The background
-- jobs are in Jobs; what SlideMessages does is in Conversation.
pub mod Prefs
pub mod Snapshots
pub mod Restart
use sokratos.Base.{
  ℕ, zero, suc, ◌+◌, ◌-◌, ◌*◌, ◌/◌, ◌%◌, ◌^◌, ◌≤◌, ◌<◌, ◌≡◌, ◌≢◌, ◌↔◌, ◌⊎◌, inl, inr, refl, ap, sym,
  subst, ◌∙◌, Bool, true, false, not, ◌&&◌, ◌||◌, Option, none, some, List, [], ◌∷◌, ◌++◌, ltb, leb,
  ◌==◌, if◌then◌else◌, length, take, drop, get_elem?, get_last?, is_empty, bytes, bytes_eq, map,
}
use sokratos.Conversation.Wire.{LlmMessage, WireMessage, to_wire, of_wire, strip_vision_parts}
use sokratos.Registry.{lookup, remove, assign}

pub record AgentState : Type 0 where
  pub status : List ℕ
  pub current_task : List ℕ
  pub step_count : ℕ
  pub user_prefs : List (List ℕ × List ℕ)

unfoldable pref_lines : List (List ℕ × List ℕ) → List ℕ
pref_lines [] = []
pref_lines ((k, v) ∷ prefs) = bytes "- " ++ (k ++ (bytes ": " ++ (v ++ (10 ∷ pref_lines prefs))))

unfoldable to_markdown : (ℕ → List ℕ) → AgentState → List ℕ
unfolding pref_lines
to_markdown show s =
    bytes "**Status:** "
    ++ (s.status
        ++ (10 ∷ bytes "**Current Task:** "
            ++ (s.current_task
                ++ (10 ∷ bytes "**Step Count:** "
                    ++ (show s.step_count
                        ++ (10
                            ∷ (if is_empty s.user_prefs
                                then []
                                else bytes "**User Preferences:**"
                                  ++ (10 ∷ pref_lines s.user_prefs))))))))

-- `pool` says whether there is a database.
pub record StateManager : Type 0 where
  pub state : AgentState
  pub pool : Bool
  pub messages : List LlmMessage
  pub last_user_activity : ℕ
  pub last_pipeline_id : ℕ

-- The loop of `loadPrefsFromDB` over the rows.
unfoldable pub load_rows :
    (List ℕ × List ℕ → Bool)
    → List (List ℕ × List ℕ)
    → List (List ℕ × List ℕ)
    → List (List ℕ × List ℕ)
unfolding assign
load_rows scans prefs [] = prefs
load_rows scans prefs ((k, v) ∷ rows) =
    load_rows scans (if scans (k, v) then assign prefs k v else prefs) rows

abbrev pub with_prefs : StateManager → List (List ℕ × List ℕ) → StateManager
with_prefs sm prefs = record sm { state = record sm.state { user_prefs = prefs } }

unfoldable pub load_prefs :
    (List ℕ × List ℕ → Bool) → Bool → StateManager → List (List ℕ × List ℕ) → StateManager
unfolding load_rows
load_prefs scans ok sm table =
    if ok then with_prefs sm (load_rows scans sm.state.user_prefs table) else sm

unfoldable pub refresh_prefs :
    (List ℕ × List ℕ → Bool) → Bool → StateManager → List (List ℕ × List ℕ) → StateManager
unfolding load_prefs
refresh_prefs scans ok sm table = if sm.pool then load_prefs scans ok sm table else sm

unfoldable pub new_state_manager :
    (List ℕ × List ℕ → Bool) → Bool → Bool → List (List ℕ × List ℕ) → StateManager
unfolding refresh_prefs
new_state_manager scans ok pool table =
    refresh_prefs scans ok
      (record {
        state = record {
          status = bytes "idle";
          current_task = [];
          step_count = 0;
          user_prefs = [];
        };
        pool = pool;
        messages = [];
        last_user_activity = 0;
        last_pipeline_id = 0;
      })
      table

pub data PrefEnd : Type 0 where
  stored : PrefEnd
  not_stored : PrefEnd

-- The manager, the table, and whether an error is returned.
unfoldable pub set_pref :
    Bool
    → List ℕ
    → List ℕ
    → StateManager × List (List ℕ × List ℕ)
    → (StateManager × List (List ℕ × List ℕ)) × PrefEnd
unfolding assign
set_pref ok key value (sm, table) =
    let sm' = with_prefs sm (assign sm.state.user_prefs key value) in
    if not sm.pool
    then ((sm', table), stored)
    else if ok
    then ((sm', assign table key value), stored)
    else ((sm', table), not_stored)

unfoldable pub delete_pref :
    Bool
    → List ℕ
    → StateManager × List (List ℕ × List ℕ)
    → (StateManager × List (List ℕ × List ℕ)) × PrefEnd
unfolding remove
delete_pref ok key (sm, table) =
    let sm' = with_prefs sm (remove sm.state.user_prefs key) in
    if not sm.pool
    then ((sm', table), stored)
    else if ok
    then ((sm', remove table key), stored)
    else ((sm', table), not_stored)

pub data PreferenceAnswer : Type 0 where
  no_arguments : PreferenceAnswer
  key_required : PreferenceAnswer
  removed : List ℕ → PrefEnd → PreferenceAnswer
  saved : List ℕ → List ℕ → PrefEnd → PreferenceAnswer

-- The tool set_preference, with the decoded key and value.
unfoldable pub set_preference :
    (List ℕ → List ℕ)
    → Bool
    → Option (List ℕ × List ℕ)
    → StateManager × List (List ℕ × List ℕ)
    → (StateManager × List (List ℕ × List ℕ)) × PreferenceAnswer
unfolding set_pref delete_pref
set_preference trim_space ok none s = (s, no_arguments)
set_preference trim_space ok (some (key, value)) s =
    if is_empty (trim_space key)
    then (s, key_required)
    else if is_empty (trim_space value)
    then (let out = delete_pref ok (trim_space key) s in (out.0, removed (trim_space key) out.1))
    else (let out = set_pref ok (trim_space key) (trim_space value) s in
        (out.0, saved (trim_space key) (trim_space value) out.1))

-- The tool update_state, with the decoded status and task.
unfoldable update_state : List ℕ → List ℕ → StateManager → StateManager
update_state status task sm = record sm {
  state = record sm.state {
    status = if is_empty status then sm.state.status else status;
    current_task = if is_empty task then sm.state.current_task else task;
    step_count = suc sm.state.step_count;
  };
}

-- `AppendMessage` under the mutex.
unfoldable pub append_message : ℕ → LlmMessage → StateManager → StateManager
append_message now m sm = record sm {
  messages = sm.messages ++ (if m.time == 0 then record m { time = now } else m) ∷ [];
}

-- `persistSnapshot` before its statement: what it will store.
unfoldable pub snapshot_of : (List WireMessage → Option (List ℕ)) → StateManager → Option (List ℕ)
unfolding strip_vision_parts to_wire
snapshot_of marshal sm =
    if sm.pool then marshal (map to_wire (strip_vision_parts sm.messages)) else none

unfoldable pub load_conversation_snapshot :
    (List ℕ → Option (List WireMessage)) → Option (List ℕ) → StateManager → StateManager
unfolding of_wire
load_conversation_snapshot unmarshal none sm = sm
load_conversation_snapshot unmarshal (some text) sm =
    if sm.pool
    then elim (unmarshal text) [
      | none ↦ sm
      | some messages ↦ record sm { messages = map of_wire messages }
    ]
    else sm

abbrev pub stale_gap : ℕ
stale_gap = 30 * 60 * 1_000_000_000

-- The staleness trim of `processMessage` in message_loop.go.
unfoldable pub trim_stale : ℕ → List LlmMessage → List LlmMessage
trim_stale now history =
    if ltb 4 (length history)
    then elim (get_last? history) [
      | none ↦ history
      | some m ↦
          if not (m.time == 0) && ltb stale_gap (now - m.time)
          then drop (length history - 4) history
          else history
    ]
    else history
