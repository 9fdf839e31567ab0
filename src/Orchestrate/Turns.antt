-- ===== src/Orchestrate/Turns.antt =====
-- What one round of orchestrate/loop.go adds to the messages and to the log.
use mathlib.Core.List.{append-nil, append_assoc}
use sokratos.Base.{
  ℕ, ◌≤◌, ◌≡◌, ◌⊎◌, inl, inr, refl, ap, sym, ◌∙◌, Bool, true, false, Option, none, some, List, [],
  ◌∷◌, ◌++◌, if◌then◌else◌, length, bytes, bytes_eq, All, arith,
}
use sokratos.Orchestrate.Notes.{
  user_says, IsCalled, Noted, if-Noted, or_fallback-Noted, hard_error-Noted, soft_error-Noted,
  succeed-Noted,
}
use sokratos.Orchestrate.{
  Content, no_executor, Message, Decision, Executed, done, failed, background_job, LoopConfig, Env,
  Event, chatted, executed, LoopState, Result, background, say, record_event, after_tool,
  unless_mandated, on_decision, on_parsed, on_reply, round_step, call_tool, stored_content, parse,
}
use sokratos.Orchestrate.Tools.{Text}

-- What a round that goes on says: nothing, or the assistant and then the user.
abbrev pub IsSaid : Option Result → List Message → Type 0
IsSaid o [] = Unit
IsSaid (some r) (a ∷ []) = a.role ≡ bytes "assistant"
IsSaid none (a ∷ u ∷ []) = (a.role ≡ bytes "assistant") × (u.role ≡ bytes "user")
IsSaid _ _ = ⊥

module _ (cfg : LoopConfig) where
  pub record Turn (st : LoopState) (out : LoopState × Option Result) : Type 0 where
    pub said : List Message
    pub called : List Event
    pub messages : out.0.messages ≡ st.messages ++ said
    pub log : out.0.log ≡ st.log ++ called
    pub at_most : length called ≤ 2
    pub allowed : All (IsCalled cfg) called
    pub spoken : IsSaid out.1 said

  silent :
      (st : LoopState) (out : LoopState × Option Result)
      → out.0.messages ≡ st.messages
      → out.0.log ≡ st.log
      → Turn st out
  silent st out m l = record {
    said = [];
    called = [];
    messages = m ∙ sym (append-nil st.messages);
    log = l ∙ sym (append-nil st.log);
    at_most = omega arith;
    allowed = tt;
    spoken = tt;
  }

  if-Turn :
      (st : LoopState) (b : Bool) (x y : LoopState × Option Result)
      → Turn st x
      → Turn st y
      → Turn st (if b then x else y)
  if-Turn st true x y hx hy = hx
  if-Turn st false x y hx hy = hy

  reset-Turn :
      (st : LoopState) (out : LoopState × Option Result)
      → Turn (record st { parse_retries = 0 }) out
      → Turn st out
  reset-Turn st out t = record {
    said = t.said;
    called = t.called;
    messages = t.messages;
    log = t.log;
    at_most = t.at_most;
    allowed = t.allowed;
    spoken = t.spoken;
  }

  module _ (env : Env) where
    abbrev AfterTool : LoopState → LoopState × Option Result → Type 0
    AfterTool st out =
        (Noted cfg st out.0 × (out.1 ≡ none))
        ⊎ ((out.0 ≡ st) × ((job : Text) × (out.1 ≡ some (background job))))

    after_tool-AfterTool :
        (st : LoopState) (d : Decision) (out : Executed)
        → AfterTool st (after_tool cfg env st d out)
    unfolding after_tool
    after_tool-AfterTool st d (background_job job) = inr (refl, (job, refl))
    after_tool-AfterTool st d (failed err) = inl (
      or_fallback-Noted cfg env st d err (cfg.fallbacks d.name) _ refl
          (hard_error-Noted cfg env st d.name err),
      refl,
    )
    after_tool-AfterTool st d (done result) = inl (
      if-Noted cfg st _ _ _
          (or_fallback-Noted cfg env st d result (cfg.fallbacks d.name) _ refl
            (soft_error-Noted cfg env st d.name result))
          (succeed-Noted cfg env st result),
      refl,
    )

    -- The tool of a decision, called from a state in which the assistant has just spoken.
    called_turn :
        (st : LoopState) (stored : Content) (d : Decision) (out : LoopState × Option Result)
        → cfg.mandated_brain_tools d.name ≡ none
        → AfterTool (record_event (say st (bytes "assistant") stored) (executed d.name)) out
        → Turn st out
    called_turn st stored d out free (inl (h, e)) = record {
      said = record { role = bytes "assistant"; content = stored } ∷ user_says h.n ∷ [];
      called = executed d.name ∷ h.called;
      messages = h.messages ∙ append_assoc st.messages _ _;
      log = h.log ∙ append_assoc st.log _ _;
      at_most = omega (arith, h.at_most);
      allowed = (inl free, h.allowed);
      spoken = rw e (refl, refl);
    }
    called_turn st stored d out free (inr (s, (job, e))) = record {
      said = record { role = bytes "assistant"; content = stored } ∷ [];
      called = executed d.name ∷ [];
      messages = ap (λ (x : LoopState). x.messages) s;
      log = ap (λ (x : LoopState). x.log) s;
      at_most = omega arith;
      allowed = (inl free, tt);
      spoken = rw e refl;
    }

    unless_mandated-Turn :
        (st : LoopState) (stored : Content) (d : Decision) (o : Option Text)
        → cfg.mandated_brain_tools d.name ≡ o
        → Turn st (unless_mandated cfg env (say st (bytes "assistant") stored) d o)
    unfolding unless_mandated call_tool
    unless_mandated-Turn st stored d (some task) h = record {
      said = record { role = bytes "assistant"; content = stored } ∷ [];
      called = [];
      messages = refl;
      log = sym (append-nil st.log);
      at_most = omega arith;
      allowed = tt;
      spoken = refl;
    }
    unless_mandated-Turn st stored d none h =
        called_turn st stored d _ h (after_tool-AfterTool _ d _)

    on_decision-Turn :
        (st : LoopState) (stored : Content) (d : Decision)
        → Turn st (on_decision cfg env st stored d)
    unfolding on_decision
    on_decision-Turn st stored d =
        if-Turn st (bytes_eq d.action (bytes "respond")) _ _
          (record {
            said = record { role = bytes "assistant"; content = stored } ∷ [];
            called = [];
            messages = refl;
            log = sym (append-nil st.log);
            at_most = omega arith;
            allowed = tt;
            spoken = refl;
          })
          (if-Turn st (bytes_eq d.action (bytes "tool")) _ _
            (if-Turn st cfg.has_executor _ _
              (unless_mandated-Turn st stored d (cfg.mandated_brain_tools d.name) refl)
              (record {
                said =
                    record { role = bytes "assistant"; content = stored }
                    ∷ user_says no_executor
                    ∷ [];
                called = [];
                messages = append_assoc st.messages _ _;
                log = sym (append-nil st.log);
                at_most = omega arith;
                allowed = tt;
                spoken = (refl, refl);
              }))
            (silent st _ refl refl))

    on_parsed-Turn :
        (st : LoopState) (stored : Content) (o : Option Decision)
        → Turn st (on_parsed cfg env st stored o)
    unfolding on_parsed
    on_parsed-Turn st stored none = silent st _ refl refl
    on_parsed-Turn st stored (some d) =
        reset-Turn st _ (on_decision-Turn (record st { parse_retries = 0 }) stored d)

    on_reply-Turn : (st : LoopState) (o : Option Text) → Turn st (on_reply cfg env st o)
    unfolding on_reply
    on_reply-Turn st none = silent st _ refl refl
    on_reply-Turn st (some reply) =
        on_parsed-Turn st (stored_content env (env.trim_space reply))
          (parse cfg env (env.strip_think_tags (env.trim_space reply)))

    -- A round asks the LLM once.
    pub round_step-Turn :
        (round : ℕ) (st : LoopState) → Turn (record_event st chatted) (round_step cfg env round st)
    unfolding round_step
    round_step-Turn round st = on_reply-Turn (record_event st chatted) _
