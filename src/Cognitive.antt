-- ===== src/Cognitive.antt =====
-- engine/cognitive.go: when the engine works on its memory while the user is away.
-- Times are nanoseconds, 0 for the zero time of a run; counts and thresholds are not negative. What
-- the steps do is left out, and `available` says whether there are a database and an embedding
-- endpoint.
pub mod Triggers
use sokratos.Base.{
  ℕ, zero, suc, ◌+◌, ◌-◌, ◌*◌, ◌/◌, ◌%◌, ◌^◌, ◌≤◌, ◌<◌, ◌≡◌, ◌≢◌, ◌↔◌, ◌⊎◌, inl, inr, refl, ap, sym,
  subst, ◌∙◌, Bool, true, false, not, ◌&&◌, ◌||◌, Option, none, some, List, [], ◌∷◌, ◌++◌, ltb, leb,
  ◌==◌, if◌then◌else◌, length, take, drop, get_elem?, is_empty, bytes, bytes_eq, bytes_eq_refl,
  bytes_eq_sound, ℤ, pos, negsuc, positive_or, Elem, All, Bool-cases, Option-cases, arith,
  length-append, has_prefix, length-snoc, length-take-le, length-drop,
}

pub record CognitiveConfig : Type 0 where
  pub buffer_threshold : ℕ
  pub lull_duration : ℕ
  pub ceiling : ℕ
  pub reflection_memory_threshold : ℕ
  pub reflection_prompt : List ℕ

pub record CognitiveState : Type 0 where
  pub last_cognitive_run : ℕ
  pub consolidate_nudge : Bool

-- `NudgeConsolidate`.
unfoldable pub nudge_consolidate : CognitiveState → CognitiveState
nudge_consolidate st = record st { consolidate_nudge = true }

pub data Trigger : Type 0 where
  volume nudge ceiling lull : Trigger

-- `lastActivity.IsZero() || time.Since(lastActivity) >= LullDuration`.
abbrev pub is_lull : CognitiveConfig → Option ℕ → ℕ → Bool
is_lull cfg none now = true
is_lull cfg (some activity) now = leb cfg.lull_duration (now - activity)

abbrev pub is_buffer_full : CognitiveConfig → ℕ → Bool
is_buffer_full cfg count = leb cfg.buffer_threshold count

abbrev pub is_ceiling_hit : CognitiveConfig → CognitiveState → ℕ → Bool
is_ceiling_hit cfg st now = leb cfg.ceiling (now - st.last_cognitive_run)

-- The guard and the label, from what was found.
abbrev pub trigger_of : Bool → Bool → Bool → Bool → Option Trigger
trigger_of buffer_full lulled ceiling_hit nudged =
    if not ((buffer_full && lulled) || (ceiling_hit || nudged))
    then none
    else if nudged
    then some nudge
    else if ceiling_hit
    then some ceiling
    else if lulled
    then some lull
    else some volume

abbrev pub after_trigger : CognitiveState → Option Trigger → ℕ → CognitiveState × Option Trigger
after_trigger st none later = (st, none)
after_trigger st (some t) later =
    (record { last_cognitive_run = later; consolidate_nudge = false }, some t)

-- `runCognitiveIfTriggered` at `now`, which ends `later`, where no nudge comes meanwhile; no count
-- is a query that failed.
unfoldable pub run_cognitive :
    CognitiveConfig
    → Bool
    → CognitiveState
    → Option ℕ
    → Option ℕ
    → ℕ
    → ℕ
    → CognitiveState × Option Trigger
run_cognitive cfg false st count activity now later = (st, none)
run_cognitive cfg true st none activity now later = (st, none)
run_cognitive cfg true st (some count) activity now later =
    after_trigger st
      (trigger_of (is_buffer_full cfg count) (is_lull cfg activity now) (is_ceiling_hit cfg st now)
        (st.consolidate_nudge && is_lull cfg activity now))
      later

-- The guard of the reflection; no count is a query that failed.
unfoldable pub reflects : CognitiveConfig → Bool → Option ℕ → Bool
reflects cfg services count =
    services
    && (not (is_empty cfg.reflection_prompt)
        && (ltb 0 cfg.reflection_memory_threshold
            && elim count [ none ↦ false | some n ↦ leb cfg.reflection_memory_threshold n ]))

-- The tables that are pruned, of those with their days to keep.
unfoldable pub pruned_tables : List (List ℕ × ℤ) → List (List ℕ)
pruned_tables [] = []
pruned_tables ((label, pos (suc days)) ∷ specs) = label ∷ pruned_tables specs
pruned_tables ((label, _) ∷ specs) = pruned_tables specs

-- `runMaintenanceIfDue`: the time of the last run, and whether it runs.
unfoldable pub run_maintenance : Bool → ℕ → ℕ → ℕ → ℕ × Bool
run_maintenance has_db interval last now =
    if not has_db || ltb (now - last) interval then (last, false) else (now, true)
