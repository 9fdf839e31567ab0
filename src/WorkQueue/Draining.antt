-- ===== src/WorkQueue/Draining.antt =====
-- The worker of clients/workqueue.go empties the channel: retries come to an end.
use sokratos.Base.{
  ℕ, suc, ◌+◌, ◌-◌, ◌≤◌, ◌<◌, ◌≡◌, refl, subst, sym, Bool, Option, none, some, List, [], ◌∷◌, ◌++◌,
  length, length-snoc, arith,
}
use native.Mathlib.Nat.{zero-add}
use sokratos.WorkQueue.{
  WorkRequest, WorkQueue, take_item, take_from, finish_item, Turn, retrying, delivered,
}

abbrev is_delivery : Turn → ℕ
is_delivery retrying = 0
is_delivery (delivered item failed) = 1

-- One item taken and executed; the flag is whether the execution fails.
turn_of : Option (WorkRequest × WorkQueue) → WorkQueue → Bool → WorkQueue × ℕ
turn_of none q failed = (q, 0)
turn_of (some (item, rest)) q failed =
    let (q', t) = finish_item rest item failed in (q', is_delivery t)

turn : WorkQueue → Bool → WorkQueue × ℕ
unfolding turn_of
turn q failed = turn_of (take_item q) q failed

-- The queue after so many executions, and the number of deliveries.
pub drain : WorkQueue → List Bool → WorkQueue × ℕ
drain q [] = (q, 0)
drain q (failed ∷ rest) =
    let (q', n) = turn q failed in let (q'', m) = drain q' rest in (q'', n + m)

-- How often the items can be executed at most.
unfoldable pub budget : List WorkRequest → ℕ
budget [] = 0
budget (item ∷ items) = item.retries + 1 + budget items

budget-snoc :
    (items : List WorkRequest) (item : WorkRequest)
    → budget (items ++ item ∷ []) ≡ budget items + item.retries + 1
unfolding budget
budget-snoc [] item = omega arith
budget-snoc (x ∷ items) item = omega (arith, budget-snoc items item)

turn_cons :
    (q : WorkQueue) (item : WorkRequest) (rest : List WorkRequest) (failed : Bool)
    → let (q', n) = turn_of (take_from q (item ∷ rest)) q failed in
      (length q'.ch + n ≡ suc (length rest)) × (budget q'.ch < budget (item ∷ rest))
unfolding turn_of take_from finish_item budget
turn_cons q item rest failed = ground (
  arith,
  length-snoc rest (record item { retries = item.retries - 1 }),
  budget-snoc rest (record item { retries = item.retries - 1 }),
)

turn_nonempty :
    (q : WorkQueue) (item : WorkRequest) (rest : List WorkRequest) (failed : Bool)
    → q.ch ≡ item ∷ rest
    → let (q', n) = turn q failed in
      (length q'.ch + n ≡ suc (length rest)) × (budget q'.ch < budget (item ∷ rest))
unfolding turn take_item
turn_nonempty q item rest failed e =
    subst
      (λ items.
        let (q', n) = turn_of (take_from q items) q failed in
        (length q'.ch + n ≡ suc (length rest)) × (budget q'.ch < budget (item ∷ rest)))
      (sym e) (turn_cons q item rest failed)

turn_empty : (q : WorkQueue) (failed : Bool) → q.ch ≡ [] → turn q failed ≡ (q, 0)
unfolding turn take_item take_from
turn_empty q failed e = ground arith

drain_from :
    (q : WorkQueue) (items : List WorkRequest) (outs : List Bool)
    → q.ch ≡ items
    → budget items ≤ length outs
    → ((drain q outs).0.ch ≡ []) × ((drain q outs).1 ≡ length items)
unfolding drain
drain_from q [] [] e h = (e, refl)
drain_from q (item ∷ rest) [] e h = absurd (unfold budget in omega arith)
drain_from q [] (o ∷ outs) e h =
    rw (turn_empty q o e, zero-add) (drain_from q [] outs e (unfold budget in omega arith))
drain_from q (item ∷ rest) (o ∷ outs) e h =
    let r = turn_nonempty q item rest o e in
    let q' = (turn q o).0 in
    let ih = drain_from q' q'.ch outs refl (omega (arith, r.1)) in (ih.0, omega (arith, r.0, ih.1))

-- Without further submissions, whichever executions fail, as many executions as the items have
-- attempts in all empty the channel, with as many deliveries as there were items.
pub drain_total :
    (q : WorkQueue) (outs : List Bool)
    → budget q.ch ≤ length outs
    → ((drain q outs).0.ch ≡ []) × ((drain q outs).1 ≡ length q.ch)
drain_total q outs h = drain_from q q.ch outs refl h
