-- ===== src/Pursuit/Signals.antt =====
-- What engine/curiosity.go does with the signals.
use sokratos.Base.{
  ℕ, ◌≤◌, ◌≡◌, ◌⊎◌, inl, inr, refl, sym, subst, Bool, true, false, Option, none, some, List, [],
  ◌∷◌, ltb, if◌then◌else◌, Elem, All, Bool-cases, arith,
}
use sokratos.Pursuit.Marks.{IsPursued, mark_pursued-IsPursued}
use sokratos.Pursuit.{
  StartWrites, CuriositySignal, PursuitState, is_within, best_signal, min_gap, signal_launch,
  launch, drain_curiosity_signals,
}

-- A signal of the list of the highest priority in it.
abbrev pub IsBest : CuriositySignal → List CuriositySignal → Type 0
IsBest best signals = Elem best signals × All (λ sig. sig.priority ≤ best.priority) signals

abbrev Best : List CuriositySignal → Option CuriositySignal → Type 0
Best signals none = signals ≡ []
Best signals (some best) = IsBest best signals

higher : CuriositySignal → CuriositySignal → CuriositySignal
higher best sig = if ltb best.priority sig.priority then sig else best

best_signal-IsBest :
    (best : CuriositySignal) (signals : List CuriositySignal)
    → (b : CuriositySignal) × (best_signal (some best) signals ≡ some b) × IsBest b (best ∷ signals)
unfolding best_signal
best_signal-IsBest best [] = (best, refl, (inl refl, (omega arith, tt)))
best_signal-IsBest best (sig ∷ signals) = elim (Bool-cases (ltb best.priority sig.priority)) [
  | inl e ↦
      let (b, found, (is_in, top)) = best_signal-IsBest sig signals in
      (b, rw (best_signal, e) found, (inr is_in, (ground (arith, top.0, e), (top.0, top.1))))
  | inr e ↦
      let (b, found, (is_in, top)) = best_signal-IsBest best signals in
      (
        b,
        rw (best_signal, e) found,
        (
          elim is_in [ inl same ↦ inl same | inr later ↦ inr (inr later) ],
          (top.0, (ground (arith, top.0, e), top.1)),
        ),
      )
]

best_signal-Best : (signals : List CuriositySignal) → Best signals (best_signal none signals)
unfolding best_signal
best_signal-Best [] = refl
best_signal-Best (sig ∷ signals) =
    let (b, found, best) = best_signal-IsBest sig signals in
    subst (Best (sig ∷ signals)) (sym found) best

-- What a drain may leave.
abbrev pub Drained : ℕ → StartWrites → Bool → ℕ → ℕ → PursuitState → PursuitState → Type 0
Drained cooldown w launch_ok now after s out =
    ((out ≡ record s { signals = [] })
      × ((s.signals ≡ [])
          ⊎ ((is_within s.last_curiosity_run (min_gap cooldown) now ≡ true) ⊎ (launch_ok ≡ false))))
    ⊎ ((best : CuriositySignal) × IsBest best s.signals
        × (is_within s.last_curiosity_run (min_gap cooldown) now ≡ false)
        × (launch_ok ≡ true)
        × IsPursued w best.objective_id after s.objectives out.objectives
        × (out ≡ record s {
          objectives = out.objectives;
          signals = [];
          last_curiosity_run = some after;
          launched = signal_launch best ∷ s.launched;
        }))

-- The channel is empty afterwards. Either nothing else changes, and then no signal waited, the last
-- run was within the gap, which is the cooldown or half an hour if that is less, or the launch failed;
-- or a signal that waited, of the highest priority among these, is launched after the gap, and the
-- row of its objective, if it has one, is in progress, at that time and with one attempt more, as far
-- as the table takes the two updates, while the other rows stay.
pub drain_curiosity_signals-Drained :
    (cooldown : ℕ) (w : StartWrites) (launch_ok : Bool) (now after : ℕ) (s : PursuitState)
    → Drained cooldown w launch_ok now after s
        (drain_curiosity_signals cooldown w launch_ok now after s)
unfolding drain_curiosity_signals launch
drain_curiosity_signals-Drained cooldown w launch_ok now after s =
    chosen (best_signal none s.signals) (best_signal-Best s.signals)
  where
    chosen :
        (o : Option CuriositySignal)
        → Best s.signals o
        → Drained cooldown w launch_ok now after s (elim o [
          | none ↦ record s { signals = [] }
          | some best ↦
              if is_within s.last_curiosity_run (min_gap cooldown) now
              then record s { signals = [] }
              else if launch_ok
              then record (launch (record s { signals = [] }) w true (signal_launch best) after) {
                last_curiosity_run = some after;
              }
              else record s { signals = [] }
        ])
    chosen none b = inl (refl, inl b)
    chosen (some best) b =
        elim (Bool-cases (is_within s.last_curiosity_run (min_gap cooldown) now)) [
          | inl e ↦ rw e (inl (refl, inr (inl refl)))
          | inr e ↦ elim (Bool-cases launch_ok) [
            | inl l ↦
                rw (e, l)
                  (inr (
                    best,
                    b,
                    refl,
                    refl,
                    mark_pursued-IsPursued w s.objectives best.objective_id after,
                    refl,
                  ))
            | inr l ↦ rw (e, l) (inl (refl, inr (inr refl)))
          ]
        ]
