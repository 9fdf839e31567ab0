-- ===== src/Cognitive/Triggers.antt =====
-- What engine/cognitive.go runs for.
use sokratos.Base.{ℕ, ◌≡◌, ◌⊎◌, inl, inr, refl, Bool, true, false, ◌&&◌, Option, none, some, arith}
use sokratos.Cognitive.{
  CognitiveConfig, CognitiveState, Trigger, volume, is_lull, is_ceiling_hit, is_buffer_full,
  trigger_of, after_trigger, run_cognitive,
}

abbrev pub is_volume : Option Trigger → Bool
is_volume (some volume) = true
is_volume _ = false

abbrev pub runs : Option Trigger → Bool
runs none = false
runs (some t) = true

trigger_of_lem :
    (full lulled hit nudged : Bool)
    → let out = trigger_of full lulled hit (nudged && lulled) in
      (is_volume out ≡ false)
      × ((hit ≡ false) ⊎ (runs out ≡ true))
      × ((lulled ≡ true) ⊎ ((hit ≡ true) ⊎ (out ≡ none)))
trigger_of_lem full lulled hit nudged = (ground arith, ground arith, ground arith)

-- The work starts whenever it has not run for the time of the ceiling; while the user is not away it
-- starts for no other reason, and then a nudge stays for later. It never says that it runs for the
-- volume of new memories. Where it does not start, nothing changes, and where it does, a nudge is
-- done.
pub run_cognitive_triggers :
    (cfg : CognitiveConfig) (st : CognitiveState) (count : ℕ) (activity : Option ℕ) (now later : ℕ)
    → let out = run_cognitive cfg true st (some count) activity now later in
      (is_volume out.1 ≡ false)
      × ((is_ceiling_hit cfg st now ≡ false) ⊎ (runs out.1 ≡ true))
      × ((is_lull cfg activity now ≡ true)
          ⊎ ((is_ceiling_hit cfg st now ≡ true) ⊎ (out ≡ (st, none))))
      × ((out ≡ (st, none))
          ⊎ ((runs out.1 ≡ true)
              × (out.0 ≡ record { last_cognitive_run = later; consolidate_nudge = false })))
unfolding run_cognitive
run_cognitive_triggers cfg st count activity now later =
    noted
      (trigger_of (is_buffer_full cfg count) (is_lull cfg activity now) (is_ceiling_hit cfg st now)
        (st.consolidate_nudge && is_lull cfg activity now))
      (trigger_of_lem (is_buffer_full cfg count) (is_lull cfg activity now)
        (is_ceiling_hit cfg st now) st.consolidate_nudge)
  where
    noted :
        (o : Option Trigger)
        → (is_volume o ≡ false)
          × ((is_ceiling_hit cfg st now ≡ false) ⊎ (runs o ≡ true))
          × ((is_lull cfg activity now ≡ true) ⊎ ((is_ceiling_hit cfg st now ≡ true) ⊎ (o ≡ none)))
        → let out = after_trigger st o later in
          (is_volume out.1 ≡ false)
          × ((is_ceiling_hit cfg st now ≡ false) ⊎ (runs out.1 ≡ true))
          × ((is_lull cfg activity now ≡ true)
              ⊎ ((is_ceiling_hit cfg st now ≡ true) ⊎ (out ≡ (st, none))))
          × ((out ≡ (st, none))
              ⊎ ((runs out.1 ≡ true)
                  × (out.0 ≡ record { last_cognitive_run = later; consolidate_nudge = false })))
    noted none (v, c, a) = (
      v,
      c,
      elim a [ inl x ↦ inl x | inr (inl y) ↦ inr (inl y) | inr (inr z) ↦ inr (inr refl) ],
      inl refl,
    )
    noted (some t) (v, c, a) = (
      v,
      c,
      elim a [ inl x ↦ inl x | inr (inl y) ↦ inr (inl y) | inr (inr z) ↦ cc z ],
      inr (refl, refl),
    )
