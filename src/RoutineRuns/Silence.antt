-- ===== src/RoutineRuns/Silence.antt =====
-- When engine/routines.go asks the orchestrator, and what it tells the user.
use sokratos.Base.{
  ℕ, ◌≡◌, ◌⊎◌, inl, inr, refl, sym, subst, Bool, true, false, not, ◌&&◌, ◌||◌, Option, none, some,
  List, [], ◌∷◌, ◌++◌, if◌then◌else◌, is_empty, bytes, bytes_eq, All,
}
use sokratos.Routines.{is_empty_result}
use sokratos.RoutineRuns.{RoutineRow, record_action}
use sokratos.RoutineRuns.Run.{
  EngineState, RunServices, RunEnd, not_advanced, skipped, orchestrator_failed, silent, suppressed,
  delivered, send_deduped, action_list, call_actions, prompt_of, silent_record, sent_record,
  routine_message, output_of, deliver, finish_run, run_body, action_prompt, legacy_prompt,
}

module _ (tool_exec : List ℕ → Option (List ℕ)) where
  -- The action fails, or its result is empty.
  abbrev pub IsNothing : Option (List ℕ) → Type 0
  IsNothing none = Unit
  IsNothing (some result) = is_empty_result result ≡ true

  abbrev pub IsSomething : Option (List ℕ) → Type 0
  IsSomething none = ⊥
  IsSomething (some result) = is_empty_result result ≡ false

  abbrev pub SomeResult : List (List ℕ) → Type 0
  SomeResult [] = ⊥
  SomeResult (name ∷ names) = IsSomething (tool_exec name) ⊎ SomeResult names

  abbrev Any : List (List ℕ) → Bool → Type 0
  Any names true = SomeResult names
  Any names false = All (λ name. IsNothing (tool_exec name)) names

  call_actions-Any : (names : List (List ℕ)) → Any names (call_actions tool_exec names).1
  unfolding call_actions
  call_actions-Any [] = tt
  call_actions-Any (name ∷ names) =
      step (tool_exec name) refl (call_actions tool_exec names) (call_actions-Any names)
    where
      full :
          (result : List ℕ)
          → tool_exec name ≡ some result
          → (b : Bool) → is_empty_result result ≡ b
          → (any : Bool) → Any names any
          → Any (name ∷ names) (not b || any)
      full result e true n true a = inr a
      full result e true n false a = (subst IsNothing (sym e) n, a)
      full result e false n any a = inl (subst IsSomething (sym e) n)

      step :
          (o : Option (List ℕ))
          → tool_exec name ≡ o
          → (rest : List ℕ × Bool) → Any names rest.1
          → Any (name ∷ names) (
              let out : List ℕ × Bool = elim o [
                | none ↦ rest
                | some result ↦ (
                  bytes "## " ++ (name ++ (10 ∷ result ++ (10 ∷ 10 ∷ rest.0))),
                  not (is_empty_result result) || rest.1,
                )
              ] in
              out.1)
      step none e (text, true) a = inr a
      step none e (text, false) a = (subst IsNothing (sym e) tt, a)
      step (some result) e (text, any) a = full result e (is_empty_result result) refl any a

-- Why a prompt is made or not.
abbrev pub Prompted : RunServices → RoutineRow → Option (List ℕ) → Type 0
Prompted v r none =
    (r.silent_if_empty ≡ true)
    × (is_empty (action_list r) ≡ false)
    × All (λ name. IsNothing v.tool_exec (v.tool_exec name)) (action_list r)
Prompted v r (some prompt) =
    (is_empty (action_list r) ≡ true)
    ⊎ ((r.silent_if_empty ≡ false) ⊎ SomeResult v.tool_exec (action_list r))

prompt_of-Prompted : (v : RunServices) (r : RoutineRow) → Prompted v r (prompt_of v r)
unfolding prompt_of
prompt_of-Prompted v r =
    choose (is_empty (action_list r)) refl r.silent_if_empty refl
      (call_actions v.tool_exec (action_list r)) (call_actions-Any v.tool_exec (action_list r))
  where
    choose :
        (e : Bool)
        → is_empty (action_list r) ≡ e
        → (q : Bool) → r.silent_if_empty ≡ q
        → (o : List ℕ × Bool) → Any v.tool_exec (action_list r) o.1
        → Prompted v r (
            if e
            then some (legacy_prompt r)
            else if q && not o.1
            then none
            else some (action_prompt r o.0))
    choose true h q k o a = inl h
    choose false h true k (text, true) a = inr (inr a)
    choose false h true k (text, false) a = (k, h, a)
    choose false h false k o a = inr (inl k)

-- The orchestrator was asked and gave this answer.
abbrev pub Asked : RunServices → RoutineRow → Option (List ℕ) → Type 0
Asked v r answer =
    (prompt : List ℕ) × (prompt_of v r ≡ some prompt)
    × ((is_empty (action_list r) ≡ true)
        ⊎ ((r.silent_if_empty ≡ false) ⊎ SomeResult v.tool_exec (action_list r)))
    × (v.orchestrate (v.preamble ++ (10 ∷ 10 ∷ prompt)) ≡ answer)

-- What the end of a run says of the state before and after.
abbrev pub Ran : RunServices → RoutineRow → EngineState → EngineState × RunEnd → Type 0
Ran v r s (s', not_advanced) = ⊥
Ran v r s (s', skipped) = (s' ≡ s) × Prompted v r none
Ran v r s (s', orchestrator_failed) = (s' ≡ s) × Asked v r none
Ran v r s (s', silent) =
    ((answer : List ℕ) × Asked v r (some answer) × (output_of v answer ≡ none))
    × (s' ≡ record s { recent_actions = record_action s.recent_actions (silent_record v r) })
Ran v r s (s', suppressed text) =
    ((answer : List ℕ) × Asked v r (some answer) × (output_of v answer ≡ some text))
    × ((bytes_eq (v.hash text) s.last_hash ≡ true) × (s' ≡ s))
Ran v r s (s', delivered text) =
    ((answer : List ℕ) × Asked v r (some answer) × (output_of v answer ≡ some text))
    × ((bytes_eq (v.hash text) s.last_hash ≡ false)
        × (s' ≡ record s {
          last_hash = v.hash text;
          sent = s.sent ++ text ∷ [];
          recent_actions = record_action s.recent_actions (sent_record v r text);
          messages = s.messages ++ routine_message v r text ∷ [];
        }))

deliver-Ran :
    (v : RunServices) (r : RoutineRow) (s : EngineState) (answer text : List ℕ)
    → Asked v r (some answer)
    → output_of v answer ≡ some text
    → Ran v r s (deliver v r s text)
unfolding deliver send_deduped
deliver-Ran v r s answer text a o = choose (bytes_eq (v.hash text) s.last_hash) refl
  where
    choose : (b : Bool) → bytes_eq (v.hash text) s.last_hash ≡ b → Ran v r s (deliver v r s text)
    choose true e = rw e ((answer, a, o), (e, refl))
    choose false e = rw e ((answer, a, o), (e, refl))

finish_run-Ran :
    (v : RunServices) (r : RoutineRow) (s : EngineState) (answer : List ℕ)
    → Asked v r (some answer)
    → Ran v r s (finish_run v r s answer)
unfolding finish_run
finish_run-Ran v r s answer a = choose (output_of v answer) refl
  where
    choose :
        (o : Option (List ℕ))
        → output_of v answer ≡ o
        → Ran v r s (elim o [
          | none ↦ (
            record s { recent_actions = record_action s.recent_actions (silent_record v r) },
            silent,
          )
          | some text ↦ deliver v r s text
        ])
    choose none e = ((answer, a, e), refl)
    choose (some text) e = deliver-Ran v r s answer text a e

-- The orchestrator is skipped just where the routine is to be silent, has actions, and each of these
-- fails or gives an empty result. Otherwise it is asked. Where it fails nothing changes. Where its
-- answer holds no output, only the record of the recent actions does. Any other output is sent, with
-- its record, its message in the conversation and its hash, unless its hash is the last one: then
-- nothing changes.
pub run_body-Ran : (v : RunServices) (r : RoutineRow) (s : EngineState) → Ran v r s (run_body v r s)
unfolding run_body
run_body-Ran v r s = choose (prompt_of v r) refl (prompt_of-Prompted v r)
  where
    answered :
        (prompt : List ℕ)
        → prompt_of v r ≡ some prompt
        → Prompted v r (some prompt)
        → (o : Option (List ℕ)) → v.orchestrate (v.preamble ++ (10 ∷ 10 ∷ prompt)) ≡ o
        → Ran v r s
            (elim o [ none ↦ (s, orchestrator_failed) | some answer ↦ finish_run v r s answer ])
    answered prompt e p none h = (refl, (prompt, e, p, h))
    answered prompt e p (some answer) h = finish_run-Ran v r s answer (prompt, e, p, h)

    choose :
        (o : Option (List ℕ))
        → prompt_of v r ≡ o
        → Prompted v r o
        → Ran v r s (elim o [
          | none ↦ (s, skipped)
          | some prompt ↦ elim (v.orchestrate (v.preamble ++ (10 ∷ 10 ∷ prompt))) [
            | none ↦ (s, orchestrator_failed)
            | some answer ↦ finish_run v r s answer
          ]
        ])
    choose none e p = (refl, p)
    choose (some prompt) e p =
        answered prompt e p (v.orchestrate (v.preamble ++ (10 ∷ 10 ∷ prompt))) refl
