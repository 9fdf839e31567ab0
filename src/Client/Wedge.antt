-- ===== src/Client/Wedge.antt =====
-- How a probe that records nothing leaves clients/subagent_client.go and
-- clients/deep_thinker_client.go refusing every later request.
use sokratos.Base.{
  ℕ, ◌<◌, ◌≡◌, ◌≢◌, ◌⊎◌, refl, Bool, true, false, none, some, List, [], ◌∷◌, map, arith,
}
use sokratos.Semaphore.{background, try_acquire_at}
use sokratos.Breaker.{
  circuit_open, circuit_half_open, probe_in_progress, Failure, server_fault, check,
  record_failure_if_server,
}
use sokratos.Client.{Client, Begun, refused, busy, begin, Outcome, failed, finish, finish_deep}

-- Requests that come in one after the other.
pub begins : Client → List (ℕ × Bool) → Client × List Begun
begins c [] = (c, [])
begins c ((now, try_only) ∷ rest) =
    let (c', b) = begin c now try_only in let (c'', bs) = begins c' rest in (c'', b ∷ bs)

-- The client is unchanged by the requests, and refuses each of them.
abbrev pub RefusesAll : Client → List (ℕ × Bool) → Type 0
RefusesAll c later = begins c later ≡ (c, map (λ _. refused probe_in_progress) later)

half_open-begin :
    (c : Client) (now : ℕ) (try_only : Bool)
    → c.cb.state ≡ circuit_half_open
    → begin c now try_only ≡ (c, refused probe_in_progress)
unfolding begin check
half_open-begin c now try_only e = ground arith

half_open-RefusesAll :
    (c : Client) (later : List (ℕ × Bool)) → c.cb.state ≡ circuit_half_open → RefusesAll c later
unfolding begins
half_open-RefusesAll c [] e = refl
half_open-RefusesAll c ((now, t) ∷ later) e =
    ground (arith, half_open-begin c now t e, half_open-RefusesAll c later e)

-- A non-blocking request that is the first after the open window, but finds no free slot, takes the
-- probe without sending it: it reports the busy client, and every later request is refused.
pub busy_probe_wedges :
    (c : Client) (now : ℕ) (later : List (ℕ × Bool))
    → c.cb.state ≡ circuit_open
    → c.cb.open_until < now
    → (try_acquire_at c.sem background).1 ≡ false
    → ((begin c now true).1 ≡ busy) × RefusesAll (begin c now true).0 later
unfolding begin check
busy_probe_wedges c now later e lt full =
    (ground arith, half_open-RefusesAll _ later (ground arith))

-- The request failed with `e`, at the health check or at the answer.
abbrev pub EndsWith : Failure → Outcome → Type 0
EndsWith e o =
    (o.loading ≡ some e) ⊎ ((o.loading ≡ none) × (o.encodes ≡ true) × (o.reply ≡ failed e))

-- A probe that ends by its deadline or its cancellation, at the health check or at the answer,
-- leaves the breaker half-open, and every later request is refused, with either client.
pub timed_out_probe_wedges :
    (c : Client) (now : ℕ) (e : Failure) (o : Outcome) (later : List (ℕ × Bool))
    → c.cb.state ≡ circuit_half_open
    → e ≢ server_fault
    → EndsWith e o
    → RefusesAll (finish c now o).0 later × RefusesAll (finish_deep c now o).0 later
unfolding finish finish_deep record_failure_if_server
timed_out_probe_wedges c now e o later h d m =
    (half_open-RefusesAll _ later (ground arith), half_open-RefusesAll _ later (ground arith))
