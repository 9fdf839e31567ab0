-- ===== src/Orchestrate/Notes.antt =====
-- The message of the user that ends a round of orchestrate/loop.go.
use mathlib.Core.List.{append-nil}
use sokratos.Base.{
  ◌≤◌, ◌≡◌, ◌⊎◌, inl, inr, refl, ap, sym, ◌∙◌, Bool, true, false, Option, none, some, List, [], ◌∷◌,
  ◌++◌, if◌then◌else◌, length, bytes, All, Bool-cases, Option-cases, arith,
}
use sokratos.Orchestrate.{
  Note, noted, Message, Decision, Executed, done, failed, background_job, Fallback, LoopConfig, Env,
  Event, chatted, executed, LoopState, note, record_event, match_fallback, after_fallback,
  run_fallback, hard_error, soft_error, succeed, or_fallback, call_tool,
}
use sokratos.Orchestrate.Tools.{Text}

abbrev pub user_says : Note → Message
user_says n = record { role = bytes "user"; content = noted n }

module _ (cfg : LoopConfig) where
  -- An event of a round after the LLM has been asked: a tool may be called if it is not mandated to the background, or as the fallback of some tool.
  abbrev pub IsCalled : Event → Type 0
  IsCalled chatted = ⊥
  IsCalled (executed t) =
      (cfg.mandated_brain_tools t ≡ none)
      ⊎ ((name : Text) × ((fb : Fallback) × (cfg.fallbacks name ≡ some fb)
            × (fb.fallback_tool ≡ t)))

  -- One message of the user and at most one more call.
  pub record Noted (st st' : LoopState) : Type 0 where
    pub n : Note
    pub called : List Event
    pub messages : st'.messages ≡ st.messages ++ user_says n ∷ []
    pub log : st'.log ≡ st.log ++ called
    pub at_most : length called ≤ 1
    pub allowed : All IsCalled called

  pub note-Noted :
      (st st' : LoopState) (n : Note)
      → st'.messages ≡ st.messages
      → st'.log ≡ st.log
      → Noted st (note st' n)
  note-Noted st st' n m l = record {
    n = n;
    called = [];
    messages = ap (λ ms. ms ++ user_says n ∷ []) m;
    log = l ∙ sym (append-nil st.log);
    at_most = omega arith;
    allowed = tt;
  }

  pub called-Noted :
      (st : LoopState) (tool : Text) (n : Note)
      → IsCalled (executed tool)
      → Noted st (note (record_event st (executed tool)) n)
  called-Noted st tool n c = record {
    n = n;
    called = executed tool ∷ [];
    messages = refl;
    log = refl;
    at_most = omega arith;
    allowed = (c, tt);
  }

  pub if-Noted :
      (st : LoopState) (b : Bool) (x y : LoopState)
      → Noted st x
      → Noted st y
      → Noted st (if b then x else y)
  if-Noted st true x y hx hy = hx
  if-Noted st false x y hx hy = hy

  module _ (env : Env) where
    match_fallback_from :
        (o : Option Fallback) (msg : Text) (fb : Fallback)
        → match_fallback cfg env o msg ≡ some fb
        → o ≡ some fb
    unfolding match_fallback
    match_fallback_from none msg fb h = cc h
    match_fallback_from (some f) msg fb h = elim (Bool-cases (f.triggers msg)) [
      | inl e ↦ (rw e at h)
      | inr e ↦ cc (rw e at h)
    ]

    after_fallback-Noted :
        (st : LoopState) (name msg tool : Text) (out : Executed)
        → IsCalled (executed tool)
        → Noted st (after_fallback cfg env (record_event st (executed tool)) name msg tool out)
    unfolding after_fallback
    after_fallback-Noted st name msg tool (done r) c = called-Noted st tool _ c
    after_fallback-Noted st name msg tool (failed e) c = called-Noted st tool _ c
    after_fallback-Noted st name msg tool (background_job j) c = called-Noted st tool _ c

    pub or_fallback-Noted :
        (st : LoopState) (d : Decision) (msg : Text) (o : Option Fallback) (otherwise : LoopState)
        → cfg.fallbacks d.name ≡ o
        → Noted st otherwise
        → Noted st (or_fallback cfg env st d msg (match_fallback cfg env o msg) otherwise)
    unfolding or_fallback run_fallback call_tool
    or_fallback-Noted st d msg o otherwise from h =
        elim (Option-cases (match_fallback cfg env o msg)) [
          | inl e ↦ rw e h
          | inr (fb, e) ↦ rw e (
              after_fallback-Noted st d.name msg fb.fallback_tool
                (env.exec (length st.log) fb.fallback_tool
                  (fb.args_transform d.name d.arguments msg))
                (inr (d.name, (fb, from ∙ match_fallback_from o msg fb e, refl))))
        ]

    pub hard_error-Noted :
        (st : LoopState) (name err : Text) → Noted st (hard_error cfg env st name err)
    unfolding hard_error
    hard_error-Noted st name err = note-Noted st _ _ refl refl

    pub soft_error-Noted :
        (st : LoopState) (name result : Text) → Noted st (soft_error cfg env st name result)
    unfolding soft_error
    soft_error-Noted st name result = note-Noted st _ _ refl refl

    pub succeed-Noted : (st : LoopState) (result : Text) → Noted st (succeed cfg env st result)
    unfolding succeed
    succeed-Noted st result = note-Noted st _ _ refl refl
