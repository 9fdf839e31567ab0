-- ===== src/Client/Slots.antt =====
-- The slots and the breaker over one request of clients/subagent_client.go and
-- clients/deep_thinker_client.go.
use Prim.Native.String.{String}
use sokratos.Base.{
  ℕ, ◌+◌, ◌≡◌, ◌≢◌, ◌⊎◌, ◌↔◌, inl, inr, refl, Bool, true, false, Option, none, some, arith,
}
use sokratos.Semaphore.{background}
use sokratos.Semaphore.Conservation.{idle, release-Moves, try_acquire_at-Moves, acquire-Moves}
use sokratos.Breaker.{circuit_closed, Refusal, check, record_success}
use sokratos.Client.{
  Client, running, begin, claim_slot, Outcome, text, ok, is_blank, finish, finish_deep,
}

claim_slot-idle :
    (c : Client) (try_only : Bool) (r : Option Refusal)
    → let (d, b) = claim_slot c try_only r in
      ((b ≡ running) × (idle d.sem + 1 ≡ idle c.sem)) ⊎ ((b ≢ running) × (idle d.sem ≡ idle c.sem))
unfolding claim_slot
claim_slot-idle c try_only (some r) = inr (λ e. cc, refl)
claim_slot-idle c true none = ground (arith, try_acquire_at-Moves c.sem background)
claim_slot-idle c false none = ground (arith, acquire-Moves c.sem background)

begin-idle :
    (c : Client) (now : ℕ) (try_only : Bool)
    → let (d, b) = begin c now try_only in
      ((b ≡ running) × (idle d.sem + 1 ≡ idle c.sem)) ⊎ ((b ≢ running) × (idle d.sem ≡ idle c.sem))
unfolding begin
begin-idle c now try_only =
    claim_slot-idle (record c { cb = (check c.cb now).0 }) try_only (check c.cb now).1

finish-idle :
    (c : Client) (now : ℕ) (o : Outcome)
    → (idle (finish c now o).0.sem ≡ idle c.sem + 1)
      × (idle (finish_deep c now o).0.sem ≡ idle c.sem + 1)
unfolding finish finish_deep
finish-idle c now o = omega (arith, release-Moves c.sem)

-- A request that goes ahead takes one slot, and gives it back whatever it meets: a failed health
-- check, a payload that does not marshal, an error or any answer. One that the breaker refuses,
-- that finds the client busy or that has to wait takes none.
slots_returned :
    (c : Client) (now later : ℕ) (try_only : Bool) (o : Outcome)
    → let (d, b) = begin c now try_only in
      ((b ≡ running)
        × (idle d.sem + 1 ≡ idle c.sem)
        × (idle (finish d later o).0.sem ≡ idle c.sem)
        × (idle (finish_deep d later o).0.sem ≡ idle c.sem))
      ⊎ ((b ≢ running) × (idle d.sem ≡ idle c.sem))
slots_returned c now later try_only o = elim (begin-idle c now try_only) [
  | inl (e, taken) ↦
      let back = finish-idle (begin c now try_only).0 later o in
      inl (e, taken, omega (arith, back.0), omega (arith, back.1))
  | inr unused ↦ inr unused
]

-- A request of the subagent client returns the text `t` exactly when the model is loaded, the
-- payload marshals and the server answers with `t`, which is not blank; if it does, the breaker is
-- closed and its count of failures is 0.
finish-ok_iff :
    (c : Client) (now : ℕ) (o : Outcome) (t : String)
    → ((finish c now o).1 ≡ ok t
        ↔ ((o.loading ≡ none) × (o.encodes ≡ true) × (o.reply ≡ text t) × (is_blank t ≡ false)))
      × (((finish c now o).1 ≢ ok t)
          ⊎ (((finish c now o).0.cb.state ≡ circuit_closed)
              × ((finish c now o).0.cb.fail_count ≡ 0)))
unfolding finish record_success
finish-ok_iff c now o t = ((λ e. ground arith, λ e. ground arith), ground arith)
