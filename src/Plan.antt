-- ===== src/Plan.antt =====
-- worktracker/plan_execute.go: a directive is decomposed into steps, which run one after the other.
-- What the servers answer is an argument: `exec` for a step, given its number and the scratchpad, and
-- `replan` for the steps that are left. Prompts and log lines are left out. Texts are bytes; the keys
-- "failures" and "step_%d" are data.
pub mod Pad
pub mod Steps
use sokratos.Base.{
  ℕ, zero, suc, ◌+◌, ◌-◌, ◌*◌, ◌/◌, ◌%◌, ◌^◌, ◌≤◌, ◌<◌, ◌≡◌, ◌≢◌, ◌↔◌, ◌⊎◌, inl, inr, refl, ap, sym,
  subst, ◌∙◌, Bool, true, false, not, ◌&&◌, ◌||◌, Option, none, some, List, [], ◌∷◌, ◌++◌, ltb, leb,
  ◌==◌, if◌then◌else◌, length, take, drop, get_elem?, is_empty, bytes, bytes_eq, bytes_eq_refl,
  bytes_eq_sound, ℤ, pos, negsuc, positive_or, Elem, All, Bool-cases, Option-cases, arith,
  length-append, has_prefix, length-snoc, length-take-le, length-drop,
}
use sokratos.Text.{truncate}
use sokratos.Orchestrate.Tools.{contains_any}

abbrev pub scratchpad_budget : ℕ
scratchpad_budget = 1500

pub data Key : Type 0 where
  failures : Key
  step : ℕ → Key

abbrev pub same_key : Key → Key → Bool
same_key failures failures = true
same_key (step i) (step j) = i == j
same_key _ _ = false

pub record Entry : Type 0 where
  pub key : Key
  pub value : List ℕ

abbrev pub Scratchpad : Type 0
Scratchpad = List Entry

unfoldable pub set_entry : Scratchpad → Key → List ℕ → Scratchpad
set_entry [] k v = record { key = k; value = v } ∷ []
set_entry (e ∷ pad) k v =
    let rest = set_entry pad k v in
    if same_key e.key k then record e { value = v } ∷ pad else e ∷ rest

-- `Set`, which cuts the value at the budget.
unfoldable pub set_value : (ℕ → Bool) → Scratchpad → Key → List ℕ → Scratchpad
unfolding set_entry
set_value rune_start pad k v = set_entry pad k (truncate rune_start v scratchpad_budget)

unfoldable pub get_value : Scratchpad → Key → List ℕ
get_value [] k = []
get_value (e ∷ pad) k = let rest = get_value pad k in if same_key e.key k then e.value else rest

pub record PlanStep : Type 0 where
  pub description : List ℕ
  pub tools_needed : List (List ℕ)

pub record StepResult : Type 0 where
  pub number : ℕ
  pub description : List ℕ
  pub result : List ℕ
  pub success : Bool

-- What a call for a step returns.
pub data Reply : Type 0 where
  done failed : List ℕ → Reply

abbrev pub complex_keywords : List (List ℕ)
complex_keywords =
    bytes "analyze"
    ∷ bytes "synthesize"
    ∷ bytes "compare"
    ∷ bytes "evaluate"
    ∷ bytes "summarize across"
    ∷ bytes "cross-reference"
    ∷ bytes "identify patterns"
    ∷ bytes "consolidate"
    ∷ []

abbrev pub retrieval_tools : List (List ℕ)
retrieval_tools =
    bytes "search_email"
    ∷ bytes "search_calendar"
    ∷ bytes "search_memory"
    ∷ bytes "search_web"
    ∷ bytes "read_url"
    ∷ []

unfoldable pub is_one_of : List ℕ → List (List ℕ) → Bool
is_one_of t [] = false
is_one_of t (n ∷ names) = bytes_eq t n || is_one_of t names

unfoldable pub all_retrieval : List (List ℕ) → Bool
unfolding is_one_of
all_retrieval [] = true
all_retrieval (t ∷ tools) = is_one_of t retrieval_tools && all_retrieval tools

-- Whether a step goes to the deep thinker.
unfoldable pub is_complex_step : (List ℕ → List ℕ) → PlanStep → Bool
unfolding all_retrieval
is_complex_step to_lower s =
    if not (is_empty s.tools_needed) && all_retrieval s.tools_needed
    then false
    else contains_any (to_lower s.description) complex_keywords

-- The steps of an answer that parses; none is an error.
unfoldable pub at_most : ℕ → List PlanStep → Option (List PlanStep)
at_most n [] = none
at_most n (s ∷ steps) = some (take n (s ∷ steps))

abbrev pub max_plan_steps : ℕ
max_plan_steps = 6

abbrev pub max_replan_steps : ℕ
max_replan_steps = 4

-- `decomposePlan`: `none` is the failed call, or an answer that does not parse.
unfoldable pub decompose_plan : Option (List PlanStep) → Option (List PlanStep)
unfolding at_most
decompose_plan none = none
decompose_plan (some steps) = at_most max_plan_steps steps

unfoldable pub replan_remaining : Option (List PlanStep) → Option (List PlanStep)
unfolding at_most
replan_remaining none = none
replan_remaining (some steps) = at_most max_replan_steps steps

pub record Server : Type 0 where
  pub has_deep_thinker : Bool
  pub to_lower : List ℕ → List ℕ
  pub rune_start : ℕ → Bool
  -- `%d`.
  pub decimal : ℕ → List ℕ
  -- The error of the context before the step with this number, if it is done.
  pub cancelled_at : ℕ → Option (List ℕ)
  -- The first flag is whether the deep thinker is asked.
  pub exec : ℕ → Bool → PlanStep → Scratchpad → Reply
  pub replan : ℕ → Scratchpad → List PlanStep → Option (List PlanStep)

pub record Progress : Type 0 where
  pub results : List StepResult
  pub pad : Scratchpad
  pub replanned : Bool
  pub consecutive_failures : ℕ

module _ (srv : Server) where
  -- The line about a failed step, behind the lines there are.
  unfoldable pub note_failure : Scratchpad → ℕ → List ℕ → Scratchpad
  unfolding get_value set_value
  note_failure pad i err =
      let existing = get_value pad failures in
      let line = bytes "Step " ++ (srv.decimal (i + 1) ++ (bytes " failed: " ++ err)) in
      set_value srv.rune_start pad failures
        (if is_empty existing then line else existing ++ (bytes "; " ++ line))

  -- The step at index `i`, without what follows it.
  unfoldable pub record_step : Progress → ℕ → PlanStep → Reply → Progress
  unfolding set_value note_failure
  record_step p i s (done text) = record p {
    results =
        p.results
        ++ record { number = i + 1; description = s.description; result = text; success = true }
          ∷ [];
    pad = set_value srv.rune_start p.pad (step (i + 1)) text;
    consecutive_failures = 0;
  }
  record_step p i s (failed err) =
      let text = bytes "step failed: " ++ err in
      record p {
        results =
            p.results
            ++ record {
              number = i + 1;
              description = s.description;
              result = text;
              success = false;
            }
              ∷ [];
        pad = set_value srv.rune_start (note_failure p.pad i err) (step (i + 1)) text;
        consecutive_failures = suc p.consecutive_failures;
      }

  abbrev pub failed_reply : Reply → Bool
  failed_reply (done text) = false
  failed_reply (failed err) = true

  unfoldable pub should_replan : Progress → Reply → ℕ → Bool
  should_replan p reply remaining =
      not p.replanned
      && srv.has_deep_thinker
      && ltb 0 remaining
      && failed_reply reply
      && (leb 2 p.consecutive_failures || leb remaining 2)

  -- The steps that follow, and whether they have been replaced.
  unfoldable pub following : Progress → ℕ → Reply → List PlanStep → Progress × List PlanStep
  unfolding should_replan
  following p i reply rest =
      if should_replan p reply (length rest)
      then elim (replan_remaining (srv.replan (i + 1) p.pad rest)) [
        | none ↦ (p, rest)
        | some steps ↦ (record p { replanned = true }, steps)
      ]
      else (p, rest)

  -- One turn of the loop that is not cancelled.
  unfoldable pub run_step : Progress → ℕ → PlanStep → List PlanStep → Progress × List PlanStep
  unfolding record_step following is_complex_step
  run_step p i s rest =
      let reply =
        srv.exec (i + 1) (is_complex_step srv.to_lower s && srv.has_deep_thinker) s p.pad in
      following (record_step p i s reply) i reply rest

  -- `executeSteps` from index `i` on; `none` is fuel that runs out.
  unfoldable pub run_steps : ℕ → Progress → ℕ → List PlanStep → Option (List StepResult)
  run_steps fuel p i [] = some p.results
  run_steps zero p i (s ∷ rest) = none
  run_steps (suc fuel) p i (s ∷ rest) = elim (srv.cancelled_at (i + 1)) [
    | some e ↦ some (
        p.results
        ++ record {
          number = i + 1;
          description = s.description;
          result = bytes "cancelled: " ++ e;
          success = false;
        }
          ∷ [])
    | none ↦ run_steps fuel (run_step p i s rest).0 (i + 1) (run_step p i s rest).1
  ]

  -- A replacement may add four steps, once.
  unfoldable pub execute_steps : List PlanStep → Option (List StepResult)
  unfolding run_steps
  execute_steps steps =
      run_steps (length steps + max_replan_steps)
        (record { results = []; pad = []; replanned = false; consecutive_failures = 0 }) 0 steps

unfoldable pub count_succeeded : List StepResult → ℕ
count_succeeded [] = 0
count_succeeded (r ∷ results) = (if r.success then 1 else 0) + count_succeeded results
