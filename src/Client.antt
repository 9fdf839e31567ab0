-- ===== src/Client.antt =====
-- clients/base_client.go, clients/subagent_client.go, clients/deep_thinker_client.go: one request to
-- an LLM server, behind the circuit breaker and a slot of the semaphore.
-- A request is two steps on the client, `begin` up to the slot and `finish` after it, since other
-- requests run in between; one that waits for its slot goes on by `resume` or ends by `abandon`.
-- What the HTTP library and the server answer is an argument.
pub mod Slots
pub mod Wedge
pub mod Http
use Prim.Native.String.{String}
use mathlib.Core.Option
use sokratos.Base.{ℕ, ◌≡◌, Bool, true, false, Option, none, some, if◌then◌else◌, List, [], ◌∷◌}
use sokratos.Semaphore.{
  Sem, Acquired, granted, queued, background, try_acquire_at, acquire, received, release,
  acquire_cancelled,
}
use sokratos.Breaker.{
  CircuitBreaker, Refusal, Failure, server_fault, check, record_success, record_failure,
  record_failure_if_server,
}

pub record Client : Type 0 where
  pub cb : CircuitBreaker
  pub sem : Sem

pub data Begun : Type 0 where
  refused : Refusal → Begun
  busy running : Begun
  waiting : ℕ → Begun

abbrev begun_at : Acquired → Begun
begun_at granted = running
begun_at (queued ch) = waiting ch

-- The slot, once the breaker has been asked; the flag is `opts.tryOnly`.
claim_slot : Client → Bool → Option Refusal → Client × Begun
claim_slot c try_only (some r) = (c, refused r)
claim_slot c true none =
    let (s, done) = try_acquire_at c.sem background in
    (record c { sem = s }, if done then running else busy)
claim_slot c false none =
    let (s, a) = acquire c.sem background in (record c { sem = s }, begun_at a)

-- `exec` up to its `defer sc.release()`.
unfoldable pub begin : Client → ℕ → Bool → Client × Begun
unfolding claim_slot
begin c now try_only = let (cb, r) = check c.cb now in claim_slot (record c { cb = cb }) try_only r

-- A request that waits for its slot: woken, or its context ends.
unfoldable pub resume : Client → ℕ → Option Client
resume c ch = Option.map (λ s. record c { sem = s }) (received c.sem ch)

unfoldable pub abandon : Client → ℕ → Option Client
abandon c ch = Option.map (λ s. record c { sem = s }) (acquire_cancelled c.sem background ch)

pub data Reply : Type 0 where
  failed : Failure → Reply
  text : String → Reply

-- What the request meets: the error of `ensureLoaded`, whether the payload marshals, and the answer.
pub record Outcome : Type 0 where
  pub loading : Option Failure
  pub encodes : Bool
  pub reply : Reply

pub data Result : Type 0 where
  ok : String → Result
  not_available : Failure → Result
  marshal_failed empty_response : Result
  request_failed : Failure → Result

abbrev pub is_blank : String → Bool
is_blank String.[] = true
is_blank (String.◌∷◌ c s) = false

-- The answer of the server, as `exec` of the subagent client records it.
respond : CircuitBreaker → ℕ → Reply → CircuitBreaker × Result
respond cb now (failed e) = (record_failure_if_server cb e now, request_failed e)
respond cb now (text t) =
    if is_blank t then (record_failure cb now, empty_response) else (record_success cb, ok t)

-- The same in `complete` of the deep thinker's client, which takes an empty answer.
respond_deep : CircuitBreaker → ℕ → Reply → CircuitBreaker × Result
respond_deep cb now (failed e) = (record_failure_if_server cb e now, request_failed e)
respond_deep cb now (text t) = (record_success cb, ok t)

-- The body of a request that holds its slot, up to the answer.
sent :
    (CircuitBreaker → ℕ → Reply → CircuitBreaker × Result)
    → CircuitBreaker
    → ℕ
    → Option Failure
    → Bool
    → Reply
    → CircuitBreaker × Result
sent answer cb now (some e) encodes reply = (record_failure_if_server cb e now, not_available e)
sent answer cb now none false reply = (cb, marshal_failed)
sent answer cb now none true reply = answer cb now reply

finish_by :
    (CircuitBreaker → ℕ → Reply → CircuitBreaker × Result) → Client → ℕ → Outcome → Client × Result
unfolding sent
finish_by answer c now o =
    let (cb, r) = sent answer c.cb now o.loading o.encodes o.reply in
    (record { cb = cb; sem = release c.sem }, r)

-- The rest of `exec`, with the deferred release.
unfoldable pub finish : Client → ℕ → Outcome → Client × Result
unfolding finish_by respond
finish c now o = finish_by respond c now o

-- The rest of `complete` of the deep thinker's client.
unfoldable pub finish_deep : Client → ℕ → Outcome → Client × Result
unfolding finish_by respond_deep
finish_deep c now o = finish_by respond_deep c now o
