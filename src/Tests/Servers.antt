-- ===== src/Tests/Servers.antt =====
-- Examples for clients/circuit_breaker.go and the clients of the LLM servers.
use sokratos.Base.{◌+◌, ◌*◌, ◌≡◌, inr, refl, true, false, none, [], ◌∷◌, arith}
use sokratos.Semaphore.{Sem, try_acquire_at}
use sokratos.Breaker.{
  minute, circuit_open, circuit_half_open, CircuitBreaker, deadline_exceeded, new_circuit_breaker,
  record_failure,
}
use sokratos.Breaker.Backoff.{failures}
use sokratos.Client.{Client, begin, busy, Outcome, text, failed, finish, finish_deep}
use sokratos.Client.Wedge.{RefusesAll, busy_probe_wedges, timed_out_probe_wedges}

-- Tripped by three failures at time 5, and its probe under way.
abbrev tripped : CircuitBreaker
tripped = record {
  state = circuit_open;
  fail_count = 3;
  open_until = 5 + 2 * minute;
  open_dur = 4 * minute;
}

abbrev probing : CircuitBreaker
probing = record tripped { state = circuit_half_open }

third_failure_trips : failures new_circuit_breaker (5 ∷ 4 ∷ 3 ∷ []) ≡ tripped
unfolding failures record_failure new_circuit_breaker
third_failure_trips = refl

abbrev no_slot : Sem
no_slot = record { avail = 0; reserved = 0; cap = 1; high = []; low = []; made = 0; closed = [] }

abbrev one_slot : Sem
one_slot = record no_slot { avail = 1 }

abbrev answered : Outcome
answered = record { loading = none; encodes = true; reply = text "ok" }

abbrev timed_out : Outcome
timed_out = record { loading = none; encodes = true; reply = failed deadline_exceeded }

busy_probe_wedges_example :
    let c : Client = record { cb = tripped; sem = no_slot } in
    ((begin c (6 + 2 * minute) true).1 ≡ busy)
    × RefusesAll (begin c (6 + 2 * minute) true).0 ((9 + 9 * minute, false) ∷ [])
unfolding try_acquire_at
busy_probe_wedges_example =
    busy_probe_wedges (record { cb = tripped; sem = no_slot }) (6 + 2 * minute)
      ((9 + 9 * minute, false) ∷ []) refl (omega arith) refl

timed_out_probe_wedges_example :
    let c : Client = record { cb = probing; sem = no_slot } in
    RefusesAll (finish c (7 + 2 * minute) timed_out).0 ((99 * minute, true) ∷ [])
    × RefusesAll (finish_deep c (7 + 2 * minute) timed_out).0 ((99 * minute, true) ∷ [])
timed_out_probe_wedges_example =
    timed_out_probe_wedges (record { cb = probing; sem = no_slot }) (7 + 2 * minute)
      deadline_exceeded timed_out ((99 * minute, true) ∷ []) refl (λ e. cc) (inr (refl, refl, refl))
