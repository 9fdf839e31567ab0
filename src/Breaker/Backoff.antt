-- ===== src/Breaker/Backoff.antt =====
-- The open windows of clients/circuit_breaker.go.
use sokratos.Base.{
  ℕ, zero, suc, ◌+◌, ◌-◌, ◌*◌, ◌<◌, ◌≤◌, ◌≡◌, refl, List, [], ◌∷◌, ltb, if◌then◌else◌, arith,
  length, ◌⊎◌, inl, inr, ap, ◌∙◌, dec_lt,
}
use sokratos.Breaker.{
  minute, circuit_closed, circuit_open, CircuitBreaker, Call, checks, succeeds, fails,
  new_circuit_breaker, record_success, record_failure, step, run, IsValid,
}

new-IsValid : IsValid new_circuit_breaker
unfolding new_circuit_breaker
new-IsValid = ground arith

step-IsValid : (cb : CircuitBreaker) (c : ℕ × Call) → IsValid cb → IsValid (step cb c)
unfolding step
step-IsValid cb (now, checks) v = ground arith
step-IsValid cb (now, succeeds) v = ground arith
step-IsValid cb (now, fails e) v = ground arith

run-IsValid : (cb : CircuitBreaker) (cs : List (ℕ × Call)) → IsValid cb → IsValid (run cb cs)
unfolding run
run-IsValid cb [] v = v
run-IsValid cb (c ∷ cs) v = run-IsValid (step cb c) cs (step-IsValid cb c v)

-- After any calls on a new breaker it is closed exactly below three consecutive failures, and the
-- next open window lies between two and ten minutes.
run-new-IsValid : (cs : List (ℕ × Call)) → IsValid (run new_circuit_breaker cs)
run-new-IsValid cs = run-IsValid _ cs new-IsValid

-- 2, 4, 8, 10, 10, … minutes.
pub window : ℕ → ℕ
window zero = 2 * minute
window (suc zero) = 4 * minute
window (suc (suc zero)) = 8 * minute
window (suc (suc (suc k))) = 10 * minute

-- The breaker after consecutive server failures at the given times, the last time first.
unfoldable pub failures : CircuitBreaker → List ℕ → CircuitBreaker
failures cb [] = cb
failures cb (now ∷ before) = record_failure (failures cb before) now

failures-count :
    (cb : CircuitBreaker) (ts : List ℕ) → (failures (record_success cb) ts).fail_count ≡ length ts
unfolding failures record_success record_failure
failures-count cb [] = refl
failures-count cb (t ∷ ts) = ground (arith, failures-count cb ts)

failures_few :
    (cb : CircuitBreaker) (ts : List ℕ)
    → length ts < 3
    → let b = failures (record_success cb) ts in
      (b.state ≡ circuit_closed) × (b.open_dur ≡ window 0)
unfolding failures record_success record_failure window
failures_few cb [] h = (refl, refl)
failures_few cb (t ∷ ts) h = ground (arith, failures_few cb ts, failures-count cb ts)

window_next :
    (k : ℕ)
    → window (suc k) ≡ (if ltb (10 * minute) (window k * 2) then 10 * minute else window k * 2)
unfolding window
window_next zero = refl
window_next (suc zero) = refl
window_next (suc (suc zero)) = refl
window_next (suc (suc (suc k))) = refl

failures_open :
    (k : ℕ) (cb : CircuitBreaker) (now : ℕ) (before : List ℕ)
    → length before ≡ k + 2
    → let b = failures (record_success cb) (now ∷ before) in
      (b.state ≡ circuit_open) × (b.open_until ≡ now + window k) × (b.open_dur ≡ window (suc k))
unfolding failures record_failure
failures_open zero cb now before h =
    ground (arith, failures-count cb before, failures_few cb before (omega arith), window_next 0)
failures_open (suc k) cb now [] h = absurd (omega arith)
failures_open (suc k) cb now (t ∷ before) h =
    let ih = failures_open k cb t before (omega arith) in
    ground (arith, failures-count cb (t ∷ before), ih, window_next (suc k))

-- From the last success on, fewer than three consecutive server failures leave the breaker closed;
-- the third and each later one, at time `now`, opens it until `now` plus 2, 4, 8, and from then on
-- 10 minutes.
failures-window :
    (cb : CircuitBreaker) (now : ℕ) (before : List ℕ)
    → let b = failures (record_success cb) (now ∷ before) in
      ((length before < 2) × (b.state ≡ circuit_closed))
      ⊎ ((2 ≤ length before)
          × (b.state ≡ circuit_open)
          × (b.open_until ≡ now + window (length before - 2))
          × (b.open_dur ≡ window (length before - 1)))
failures-window cb now before = elim (dec_lt (length before) 2) [
  | yes h ↦ inl (h, (failures_few cb (now ∷ before) (omega arith)).0)
  | no h ↦
      let k = length before - 2 in
      let r = failures_open k cb now before (omega arith) in
      let e : suc k ≡ length before - 1 = omega arith in
      inr (omega arith, r.0, r.1, r.2 ∙ ap window e)
]
