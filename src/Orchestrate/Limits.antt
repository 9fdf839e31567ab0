-- ===== src/Orchestrate/Limits.antt =====
-- What a whole run of orchestrate/loop.go does, whatever the LLM and the tools answer.
use mathlib.Core.List.{append-nil, append_assoc}
use sokratos.Base.{
  ℕ, zero, suc, ◌+◌, ◌*◌, ◌≤◌, ◌≡◌, inl, inr, refl, ap, sym, subst, ◌∙◌, none, some, List, [], ◌∷◌,
  ◌++◌, length, bytes, positive_or, All, Option-cases, arith,
}
use sokratos.Orchestrate.{
  Message, Event, chatted, executed, LoopConfig, Env, LoopState, Result, record_event, round_step,
  run_rounds, run_loop,
}
use sokratos.Orchestrate.Notes.{IsCalled}
use sokratos.Orchestrate.Turns.{IsSaid, Turn, round_step-Turn}

-- Turns of the assistant, each answered by a message of the user but perhaps the last.
abbrev pub IsDialogue : List Message → Type 0
IsDialogue [] = Unit
IsDialogue (a ∷ []) = a.role ≡ bytes "assistant"
IsDialogue (a ∷ u ∷ rest) = (a.role ≡ bytes "assistant") × (u.role ≡ bytes "user") × IsDialogue rest

abbrev pub chats : List Event → ℕ
chats [] = 0
chats (chatted ∷ es) = suc (chats es)
chats (executed t ∷ es) = chats es

abbrev pub calls : List Event → ℕ
calls [] = 0
calls (chatted ∷ es) = calls es
calls (executed t ∷ es) = suc (calls es)

chats-append : (es fs : List Event) → chats (es ++ fs) ≡ chats es + chats fs
chats-append [] fs = omega arith
chats-append (chatted ∷ es) fs = omega (arith, chats-append es fs)
chats-append (executed t ∷ es) fs = omega (arith, chats-append es fs)

calls-append : (es fs : List Event) → calls (es ++ fs) ≡ calls es + calls fs
calls-append [] fs = omega arith
calls-append (chatted ∷ es) fs = omega (arith, calls-append es fs)
calls-append (executed t ∷ es) fs = omega (arith, calls-append es fs)

calls-le : (es : List Event) → calls es ≤ length es
calls-le [] = omega arith
calls-le (chatted ∷ es) = omega (arith, calls-le es)
calls-le (executed t ∷ es) = omega (arith, calls-le es)

All-append : (P : Event → Type 0) (es fs : List Event) → All P es → All P fs → All P (es ++ fs)
All-append P [] fs p q = q
All-append P (e ∷ es) fs (p, ps) q = (p, All-append P es fs ps q)

IsDialogue-append :
    (said rest : List Message) → IsSaid none said → IsDialogue rest → IsDialogue (said ++ rest)
IsDialogue-append [] rest p q = q
IsDialogue-append (a ∷ []) rest p q = elim p [ ]
IsDialogue-append (a ∷ u ∷ []) rest (p, p') q = (p, p', q)
IsDialogue-append (a ∷ u ∷ v ∷ said) rest p q = elim p [ ]

said-IsDialogue : (r : Result) (said : List Message) → IsSaid (some r) said → IsDialogue said
said-IsDialogue r [] p = tt
said-IsDialogue r (a ∷ []) p = p
said-IsDialogue r (a ∷ u ∷ said) p = elim p [ ]

module _ (cfg : LoopConfig) where
  -- Each tool that is called is not mandated to the background, or is the fallback of some tool.
  abbrev pub IsAllowed : Event → Type 0
  IsAllowed chatted = Unit
  IsAllowed (executed t) = IsCalled cfg (executed t)

  chats_called : (es : List Event) → All (IsCalled cfg) es → chats es ≡ 0
  chats_called [] p = refl
  chats_called (chatted ∷ es) (p, ps) = elim p [ ]
  chats_called (executed t ∷ es) (p, ps) = chats_called es ps

  all_called : (es : List Event) → All (IsCalled cfg) es → All IsAllowed es
  all_called [] p = tt
  all_called (chatted ∷ es) (p, ps) = elim p [ ]
  all_called (executed t ∷ es) (p, ps) = (p, all_called es ps)

  pub record Ran (left : ℕ) (st st' : LoopState) : Type 0 where
    pub said : List Message
    pub events : List Event
    pub messages : st'.messages ≡ st.messages ++ said
    pub log : st'.log ≡ st.log ++ events
    pub dialogue : IsDialogue said
    pub few_chats : chats events ≤ left
    pub few_calls : calls events ≤ 2 * left
    pub allowed : All IsAllowed events

  none_left : (st : LoopState) → Ran 0 st st
  none_left st = record {
    said = [];
    events = [];
    messages = sym (append-nil st.messages);
    log = sym (append-nil st.log);
    dialogue = tt;
    few_chats = omega arith;
    few_calls = omega arith;
    allowed = tt;
  }

  stops :
      (left : ℕ) (st st' : LoopState) (r : Result)
      → Turn cfg (record_event st chatted) (st', some r)
      → Ran (suc left) st st'
  stops left st st' r t = record {
    said = t.said;
    events = chatted ∷ t.called;
    messages = t.messages;
    log = t.log ∙ append_assoc st.log _ _;
    dialogue = said-IsDialogue r t.said t.spoken;
    few_chats = omega (arith, chats_called t.called t.allowed);
    few_calls = omega (arith, calls-le t.called, t.at_most);
    allowed = (tt, all_called t.called t.allowed);
  }

  goes_on :
      (left : ℕ) (st st' last : LoopState)
      → Turn cfg (record_event st chatted) (st', none)
      → Ran left st' last
      → Ran (suc left) st last
  goes_on left st st' last t r = record {
    said = t.said ++ r.said;
    events = chatted ∷ t.called ++ r.events;
    messages =
        r.messages ∙ ap (λ ms. ms ++ r.said) t.messages ∙ append_assoc st.messages t.said r.said;
    log =
        r.log
        ∙ ap (λ es. es ++ r.events) (t.log ∙ append_assoc st.log _ _)
        ∙ append_assoc st.log (chatted ∷ t.called) r.events;
    dialogue = IsDialogue-append t.said r.said t.spoken r.dialogue;
    few_chats =
        omega (arith, chats_called t.called t.allowed, chats-append t.called r.events, r.few_chats);
    few_calls =
        omega (arith, calls-append t.called r.events, calls-le t.called, t.at_most, r.few_calls);
    allowed =
        (tt, All-append IsAllowed t.called r.events (all_called t.called t.allowed) r.allowed);
  }

  module _ (env : Env) where
    run_rounds-Ran :
        (left round : ℕ) (st : LoopState) → Ran left st (run_rounds cfg env left round st).0
    unfolding run_rounds
    run_rounds-Ran zero round st = none_left st
    run_rounds-Ran (suc left) round st = elim (Option-cases (round_step cfg env round st).1) [
      | inl e ↦
          rw (run_rounds, e)
            (goes_on left st (round_step cfg env round st).0
              (run_rounds cfg env left (suc round) (round_step cfg env round st).0).0
              (subst (λ o. Turn cfg (record_event st chatted) ((round_step cfg env round st).0, o))
                e (round_step-Turn cfg env round st))
              (run_rounds-Ran left (suc round) (round_step cfg env round st).0))
      | inr (r, e) ↦
          rw (run_rounds, e)
            (stops left st (round_step cfg env round st).0 r (
              subst (λ o. Turn cfg (record_event st chatted) ((round_step cfg env round st).0, o)) e
                (round_step-Turn cfg env round st)))
    ]

    -- A run asks the LLM at most once in each of its rounds and calls at most two tools in each, the
    -- decided one and a fallback; 15 rounds where the configuration has no positive number.
    pub run_loop_bounded :
        (messages : List Message)
        → (chats (run_loop cfg env messages).0.log ≤ positive_or 15 cfg.max_rounds)
          × (calls (run_loop cfg env messages).0.log ≤ 2 * positive_or 15 cfg.max_rounds)
    unfolding run_loop
    run_loop_bounded messages =
        let r =
          run_rounds-Ran (positive_or 15 cfg.max_rounds) 0
            (record { messages = messages; parse_retries = 0; error_retries = 0; log = [] }) in
        (
          subst (λ es. chats es ≤ positive_or 15 cfg.max_rounds) (sym r.log) r.few_chats,
          subst (λ es. calls es ≤ 2 * positive_or 15 cfg.max_rounds) (sym r.log) r.few_calls,
        )

    -- A run only appends to the messages that it is given, and what it appends are turns of the
    -- assistant, each followed by one message of the user but perhaps the last.
    pub run_loop-IsDialogue :
        (messages : List Message)
        → (said : List Message) × ((run_loop cfg env messages).0.messages ≡ messages ++ said)
          × IsDialogue said
    unfolding run_loop
    run_loop-IsDialogue messages =
        let r =
          run_rounds-Ran (positive_or 15 cfg.max_rounds) 0
            (record { messages = messages; parse_retries = 0; error_retries = 0; log = [] }) in
        (r.said, r.messages, r.dialogue)

    -- A run calls no tool that is mandated to the background, unless it is configured as the
    -- fallback of a tool.
    pub run_loop_allowed :
        (messages : List Message) → All IsAllowed (run_loop cfg env messages).0.log
    unfolding run_loop
    run_loop_allowed messages =
        let r =
          run_rounds-Ran (positive_or 15 cfg.max_rounds) 0
            (record { messages = messages; parse_retries = 0; error_retries = 0; log = [] }) in
        subst (All IsAllowed) (sym r.log) r.allowed
