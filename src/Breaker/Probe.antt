-- ===== src/Breaker/Probe.antt =====
-- The probe of clients/circuit_breaker.go: how many requests pass a tripped breaker.
use sokratos.Base.{
  ℕ, ◌+◌, ◌≤◌, ◌<◌, ◌≡◌, ◌≢◌, ◌⊎◌, inl, inr, refl, ap, Option, none, some, List, [], ◌∷◌, ◌∙◌,
  arith, All,
}
use native.Mathlib.Nat.{zero-add}
use sokratos.Breaker.{
  CircuitState, circuit_closed, circuit_open, circuit_half_open, CircuitBreaker, Call, checks,
  Refusal, succeeds, fails, deadline_exceeded, canceled, server_fault, check, step, run,
}

abbrev passes : Option Refusal → ℕ
passes none = 1
passes (some r) = 0

state_cases :
    (s : CircuitState) → (s ≡ circuit_closed) ⊎ (s ≡ circuit_open) ⊎ (s ≡ circuit_half_open)
state_cases circuit_closed = inl refl
state_cases circuit_open = inr (inl refl)
state_cases circuit_half_open = inr (inr refl)

-- Whether a call is a check that lets its request through.
passes_at : CircuitBreaker → ℕ × Call → ℕ
passes_at cb (now, checks) = passes (check cb now).1
passes_at cb (now, succeeds) = 0
passes_at cb (now, fails e) = 0

-- How many of the checks in a sequence of calls let their request through.
passed : CircuitBreaker → List (ℕ × Call) → ℕ
passed cb [] = 0
passed cb (c ∷ cs) = passes_at cb c + passed (step cb c) cs

-- A call that records neither a success nor a failure of the server.
abbrev pub RecordsNothing : ℕ × Call → Type 0
RecordsNothing (now, checks) = Unit
RecordsNothing (now, succeeds) = ⊥
RecordsNothing (now, fails deadline_exceeded) = Unit
RecordsNothing (now, fails canceled) = Unit
RecordsNothing (now, fails server_fault) = ⊥

half_open_step :
    (cb : CircuitBreaker) (c : ℕ × Call)
    → cb.state ≡ circuit_half_open
    → RecordsNothing c
    → (step cb c ≡ cb) × (passes_at cb c ≡ 0)
unfolding step passes_at
half_open_step cb (now, checks) e r = ground arith
half_open_step cb (now, succeeds) e r = elim r [ ]
half_open_step cb (now, fails deadline_exceeded) e r = (refl, refl)
half_open_step cb (now, fails canceled) e r = (refl, refl)
half_open_step cb (now, fails server_fault) e r = elim r [ ]

-- While a breaker is half-open, nothing but the record of a success or of a server failure ends
-- that: after any sequence of checks, timeouts and cancellations, the probe's own among them, it is
-- unchanged, and none of the checks has passed.
half_open_stuck :
    (cb : CircuitBreaker) (cs : List (ℕ × Call))
    → cb.state ≡ circuit_half_open
    → All RecordsNothing cs
    → (run cb cs ≡ cb) × (passed cb cs ≡ 0)
unfolding run passed
half_open_stuck cb [] e r = (refl, refl)
half_open_stuck cb (c ∷ cs) e r =
    let (same, none_passes) = half_open_step cb c e r.0 in
    rw (same, none_passes, zero-add) (half_open_stuck cb cs e r.1)

open_step :
    (cb : CircuitBreaker) (c : ℕ × Call)
    → cb.state ≡ circuit_open
    → RecordsNothing c
    → ((step cb c ≡ cb) × (passes_at cb c ≡ 0))
      ⊎ (((step cb c).state ≡ circuit_half_open) × (passes_at cb c ≡ 1))
unfolding step passes_at
open_step cb (now, checks) e r = ground arith
open_step cb (now, succeeds) e r = elim r [ ]
open_step cb (now, fails deadline_exceeded) e r = inl (refl, refl)
open_step cb (now, fails canceled) e r = inl (refl, refl)
open_step cb (now, fails server_fault) e r = elim r [ ]

open-passed-le-one :
    (cb : CircuitBreaker) (cs : List (ℕ × Call))
    → cb.state ≡ circuit_open
    → All RecordsNothing cs
    → passed cb cs ≤ 1
unfolding passed
open-passed-le-one cb [] e r = omega arith
open-passed-le-one cb (c ∷ cs) e r = elim (open_step cb c e r.0) [
  | inl (same, refused) ↦ rw (same, refused) (omega (arith, open-passed-le-one cb cs e r.1))
  | inr (probing, let_in) ↦ omega (arith, let_in, (half_open_stuck (step cb c) cs probing r.1).1)
]

-- Until the record of a success or of a server failure, at most one request passes a breaker that
-- is not closed.
passed-le-one :
    (cb : CircuitBreaker) (cs : List (ℕ × Call))
    → cb.state ≢ circuit_closed
    → All RecordsNothing cs
    → passed cb cs ≤ 1
passed-le-one cb cs h r = elim (state_cases cb.state) [
  | inl e ↦ absurd (h e)
  | inr (inl e) ↦ open-passed-le-one cb cs e r
  | inr (inr e) ↦ omega (arith, (half_open_stuck cb cs e r).1)
]

pub checks_at : List ℕ → List (ℕ × Call)
checks_at [] = []
checks_at (t ∷ ts) = (t, checks) ∷ checks_at ts

open_early :
    (cb : CircuitBreaker) (t : ℕ)
    → cb.state ≡ circuit_open
    → t ≤ cb.open_until
    → (step cb (t, checks) ≡ cb) × (passes_at cb (t, checks) ≡ 0)
unfolding step passes_at
open_early cb t e h = ground arith

-- Before the end of the open window no request passes, and nothing changes; the first check after
-- it passes and makes the breaker half-open.
fail_fast :
    (cb : CircuitBreaker) (ts : List ℕ) (later : ℕ)
    → cb.state ≡ circuit_open
    → All (λ t. t ≤ cb.open_until) ts
    → cb.open_until < later
    → (passed cb (checks_at ts) ≡ 0)
      × (check (run cb (checks_at ts)) later ≡ (record cb { state = circuit_half_open }, none))
unfolding passed run checks_at check
fail_fast cb [] later e h lt = (refl, ground arith)
fail_fast cb (t ∷ ts) later e h lt =
    let (same, refused) = open_early cb t e h.0 in
    let r = fail_fast cb ts later e h.1 lt in
    (
      ground (arith, refused, ap (λ b. passed b (checks_at ts)) same, r.0),
      ap (λ b. check (run b (checks_at ts)) later) same ∙ r.1,
    )
