-- ===== src/Pursuit/Choice.antt =====
-- Which objective engine/objective_pursuit.go pursues, and when.
use sokratos.Base.{ℕ, ◌≤◌, ◌<◌, ◌≡◌, ◌⊎◌, true, false, Option, none, some, List, ◌∷◌, Elem, All}
use sokratos.Objectives.{Objective, is_active, comes_first}
use sokratos.Pursuit.Marks.{IsPursued}
use sokratos.Pursuit.{
  PursuitState, PursuitRound, Pursuit, idle, launch_failed, signals_stuck, launches, is_within,
  is_inactive, is_running_count, stuck_signal, objective_launch, offer, cooldown_of,
}

abbrev Selected : ℕ → ℕ → List Objective → Option Objective → Type 0
Selected cooldown now rows none = All (λ h. is_within h.last_pursued cooldown now ≡ true) rows
Selected cooldown now rows (some g) =
    Elem g rows
    × (is_within g.last_pursued cooldown now ≡ false)
    × All (λ h. (is_within h.last_pursued cooldown now ≡ true) ⊎ (comes_first g h ≡ true)) rows

-- `g` is an active row that was not pursued within the cooldown, and every other such row comes
-- after it: it has a lower priority, or the same one and is not updated later.
abbrev pub IsNext : PursuitRound → PursuitState → Objective → Type 0
IsNext r s g =
    Elem g s.objectives.rows
    × (is_active g.status ≡ true)
    × (is_within g.last_pursued (cooldown_of r) r.now ≡ false)
    × All
        (λ h.
          (is_active h.status ≡ false)
          ⊎ ((is_within h.last_pursued (cooldown_of r) r.now ≡ true) ⊎ (comes_first g h ≡ true)))
        s.objectives.rows

-- The conditions under which a round looks for an objective.
abbrev pub MayPursue : PursuitRound → PursuitState → Type 0
MayPursue r s =
    (is_within s.last_objective_pursuit_run (cooldown_of r) r.now ≡ false)
    × (is_inactive r.last_activity r.now ≡ false)
    × (is_running_count r.running ≡ false)
    × (r.list_ok ≡ true)

abbrev pub MayNotPursue : PursuitRound → PursuitState → Type 0
MayNotPursue r s =
    (is_within s.last_objective_pursuit_run (cooldown_of r) r.now ≡ true)
    ⊎ ((is_inactive r.last_activity r.now ≡ true)
        ⊎ ((is_running_count r.running ≡ true)
            ⊎ ((r.list_ok ≡ false)
                ⊎ All
                    (λ h.
                      (is_active h.status ≡ false)
                      ⊎ (is_within h.last_pursued (cooldown_of r) r.now ≡ true))
                    s.objectives.rows)))

abbrev pub Round : PursuitRound → PursuitState → PursuitState × Pursuit → Type 0
Round r s (s', idle) = (s' ≡ s) × MayNotPursue r s
Round r s (s', launch_failed) = (s' ≡ s) × (MayPursue r s × (r.launch_ok ≡ false))
Round r s (s', signals_stuck g) =
    MayPursue r s
    × (IsNext r s g
        × ((3 ≤ g.attempts)
            × ((r.has_channel ≡ true)
                × (s' ≡ record s {
                  signals = offer s.signals (stuck_signal g);
                  last_objective_pursuit_run = some r.after;
                }))))
Round r s (s', launches g) =
    MayPursue r s
    × (IsNext r s g
        × (((g.attempts < 3) ⊎ (r.has_channel ≡ false))
            × ((r.launch_ok ≡ true)
                × IsPursued r.writes g.id r.after s.objectives s'.objectives
                × (s' ≡ record s {
                  objectives = s'.objectives;
                  launched = objective_launch g ∷ s.launched;
                  last_objective_pursuit_run = some r.after;
                }))))
