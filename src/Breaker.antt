-- ===== src/Breaker.antt =====
-- clients/circuit_breaker.go: the circuit breaker in front of an LLM server.
-- Every method runs under the mutex, so a call is one function of the state. `time.Now()` is an
-- argument; times and durations are nanoseconds. The log lines and the breaker's name are left out.
pub mod Backoff
pub mod Probe
use sokratos.Base.{
  ℕ, suc, ◌+◌, ◌*◌, ◌<◌, ◌≤◌, ◌≡◌, ◌≢◌, ◌⊎◌, Bool, true, false, Option, none, some, List, [], ◌∷◌,
  ltb, leb, if◌then◌else◌, arith,
}

abbrev pub minute : ℕ
minute = 60_000_000_000

abbrev pub cb_fail_threshold : ℕ
cb_fail_threshold = 3

abbrev pub cb_open_duration : ℕ
cb_open_duration = 2 * minute

abbrev pub cb_max_open : ℕ
cb_max_open = 10 * minute

pub data CircuitState : Type 0 where
  circuit_closed circuit_open circuit_half_open : CircuitState

pub record CircuitBreaker : Type 0 where
  pub state : CircuitState
  pub fail_count : ℕ
  pub open_until : ℕ
  pub open_dur : ℕ

-- The two errors of `check`.
pub data Refusal : Type 0 where
  is_open probe_in_progress : Refusal

-- What `errors.Is` tells apart.
pub data Failure : Type 0 where
  deadline_exceeded canceled server_fault : Failure

unfoldable pub new_circuit_breaker : CircuitBreaker
new_circuit_breaker = record {
  state = circuit_closed;
  fail_count = 0;
  open_until = 0;
  open_dur = cb_open_duration;
}

-- The `switch` of `check`.
check_at : CircuitState → CircuitBreaker → ℕ → CircuitBreaker × Option Refusal
check_at circuit_closed cb now = (cb, none)
check_at circuit_open cb now =
    if ltb cb.open_until now
    then (record cb { state = circuit_half_open }, none)
    else (cb, some is_open)
check_at circuit_half_open cb now = (cb, some probe_in_progress)

unfoldable pub check : CircuitBreaker → ℕ → CircuitBreaker × Option Refusal
unfolding check_at
check cb now = check_at cb.state cb now

unfoldable pub record_success : CircuitBreaker → CircuitBreaker
record_success cb = record cb {
  fail_count = 0;
  state = circuit_closed;
  open_dur = cb_open_duration;
}

unfoldable pub record_failure : CircuitBreaker → ℕ → CircuitBreaker
record_failure cb now =
    let failed = suc cb.fail_count in
    let doubled = cb.open_dur * 2 in
    if leb cb_fail_threshold failed
    then record cb {
      fail_count = failed;
      state = circuit_open;
      open_until = now + cb.open_dur;
      open_dur = if ltb cb_max_open doubled then cb_max_open else doubled;
    }
    else record cb { fail_count = failed }

unfoldable pub record_failure_if_server : CircuitBreaker → Failure → ℕ → CircuitBreaker
unfolding record_failure
record_failure_if_server cb deadline_exceeded now = cb
record_failure_if_server cb canceled now = cb
record_failure_if_server cb server_fault now = record_failure cb now

-- One call on the breaker; each carries the time at which it is made.
pub data Call : Type 0 where
  checks succeeds : Call
  fails : Failure → Call

unfoldable pub step : CircuitBreaker → ℕ × Call → CircuitBreaker
unfolding check record_success record_failure_if_server
step cb (now, checks) = (check cb now).0
step cb (now, succeeds) = record_success cb
step cb (now, fails e) = record_failure_if_server cb e now

unfoldable pub run : CircuitBreaker → List (ℕ × Call) → CircuitBreaker
unfolding step
run cb [] = cb
run cb (c ∷ cs) = run (step cb c) cs

-- Below the threshold the breaker is closed, from the threshold on it is not, and the next open
-- window is between its initial and its greatest length.
pub record IsValid (cb : CircuitBreaker) : Type 0 where
  pub threshold :
      ((cb.state ≡ circuit_closed) × (cb.fail_count < cb_fail_threshold))
      ⊎ ((cb.state ≢ circuit_closed) × (cb_fail_threshold ≤ cb.fail_count))
  pub window_least : cb_open_duration ≤ cb.open_dur
  pub window_most : cb.open_dur ≤ cb_max_open
