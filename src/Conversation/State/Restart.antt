-- ===== src/Conversation/State/Restart.antt =====
-- What a restart of engine/state.go restores from the conversation snapshot, and what
-- message_loop.go makes of it.
use sokratos.Base.{
  Option-cases, ℕ, ◌≡◌, ◌⊎◌, inl, inr, refl, ap, sym, ◌∙◌, Bool, true, false, Option, some, List,
  [], ◌∷◌, Bool-cases, if◌then◌else◌, length, ltb, map, is_empty, get_last?,
}
use sokratos.Conversation.State.{StateManager, snapshot_of, load_conversation_snapshot, trim_stale}
use sokratos.Conversation.Wire.{
  LlmMessage, WireMessage, to_wire, of_wire, strip_vision_parts, plain_text, part_array,
  raw_content,
}
use sokratos.Conversation.State.Snapshots.{Store, Reach, Reach-Kept}

-- What is left of a message: its role and its content.
abbrev pub bare : LlmMessage → LlmMessage
bare m = record m { parts = []; time = 0 }

restored_lem :
    (messages : List LlmMessage)
    → map of_wire (map to_wire (strip_vision_parts messages)) ≡ map bare messages
unfolding of_wire to_wire strip_vision_parts
restored_lem [] = refl
restored_lem (m ∷ messages) = elim (Bool-cases (is_empty m.parts)) [
  | inl e ↦ rw (e, e) (ap (◌∷◌ (bare m)) (restored_lem messages))
  | inr e ↦ rw (e) (ap (◌∷◌ (bare m)) (restored_lem messages))
]

snapshot_of-bare :
    (marshal : List WireMessage → Option (List ℕ)) (sm : StateManager) (text : List ℕ)
    → snapshot_of marshal sm ≡ some text
    → (messages : List WireMessage) × (marshal messages ≡ some text)
      × (map of_wire messages ≡ map bare sm.messages)
unfolding snapshot_of
snapshot_of-bare marshal sm text e = elim (Bool-cases sm.pool) [
  | inl in_use ↦
      (map to_wire (strip_vision_parts sm.messages), rw in_use at e, restored_lem sm.messages)
  | inr no_pool ↦ absurd (cc (rw no_pool at e))
]

-- The text is the JSON of messages that read back as those of the conversation, with the role and the
-- content of each, and without images and times.
abbrev pub IsSnapshot :
    (List WireMessage → Option (List ℕ)) → StateManager → Option (List ℕ) → Type 0
IsSnapshot marshal sm text =
    (messages : List WireMessage) × (marshal messages ≡ text)
    × (map of_wire messages ≡ map bare sm.messages)

-- After any interleaving of messages, slides and goroutines that store, where at first no goroutine
-- had something to store, the snapshot in the database is the one that was there, or the JSON of
-- messages that read back as those of one conversation that there was on the way: with the role and
-- the content of each, and without images and times.
pub snapshot_restores :
    (marshal : List WireMessage → Option (List ℕ)) (s t : Store)
    → s.unsent ≡ []
    → Reach marshal s t
    → (t.snapshot ≡ s.snapshot)
      ⊎ ((u : Store) × Reach marshal s u × Reach marshal u t × IsSnapshot marshal u.sm t.snapshot)
snapshot_restores marshal s t none_left r = elim (Reach-Kept marshal s t none_left r).1 [
  | inl same ↦ inl same
  | inr (text, there, (u, before, after, e)) ↦
      let (messages, json, reads_back) = snapshot_of-bare marshal u.sm text e in
      inr (u, before, after, (messages, json ∙ sym there, reads_back))
]

of_wire-time : (w : WireMessage) → (of_wire w).time ≡ 0
unfolding of_wire
of_wire-time w =
    elim w.content as (λ c. (of_wire (record { role = w.role; content = c })).time ≡ 0) [
      | plain_text s ↦ refl
      | part_array parts ↦ refl
      | raw_content s ↦ refl
    ]

last_time :
    (messages : List WireMessage) (m : LlmMessage)
    → get_last? (map of_wire messages) ≡ some m
    → m.time ≡ 0
last_time [] m e = absurd (cc e)
last_time (w ∷ []) m e = cc (of_wire-time w, e)
last_time (w ∷ (v ∷ messages)) m e = last_time (v ∷ messages) m e

if_same : (b : Bool) (history : List LlmMessage) → (if b then history else history) ≡ history
if_same true history = refl
if_same false history = refl

trim_stale_lem :
    (now : ℕ) (history : List LlmMessage)
    → ((m : LlmMessage) → get_last? history ≡ some m → m.time ≡ 0)
    → trim_stale now history ≡ history
unfolding trim_stale
trim_stale_lem now history zero_time = elim (Option-cases (get_last? history)) [
  | inl e ↦ rw (e) (if_same (ltb 4 (length history)) history)
  | inr (m, e) ↦ rw (e, zero_time m e) (if_same (ltb 4 (length history)) history)
]

-- A conversation that is restored from a snapshot in the database is never stale: however long ago it
-- was, the staleness trim of `processMessage` keeps all of it.
pub trim_stale-load_conversation_snapshot :
    (unmarshal : List ℕ → Option (List WireMessage)) (fresh : StateManager) (text : List ℕ)
    (messages : List WireMessage) (now : ℕ)
    → fresh.pool ≡ true
    → unmarshal text ≡ some messages
    → trim_stale now (load_conversation_snapshot unmarshal (some text) fresh).messages
      ≡ map of_wire messages
unfolding load_conversation_snapshot
trim_stale-load_conversation_snapshot unmarshal fresh text messages now pool e =
    rw (pool, e) (trim_stale_lem now (map of_wire messages) (last_time messages))
