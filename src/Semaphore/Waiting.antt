-- ===== src/Semaphore/Waiting.antt =====
-- A waiter of engine/priority_sem.go stands in its queue or finds its channel closed: every call
-- of another caller keeps that.
use sokratos.Base.{
  ℕ, ◌+◌, ◌-◌, ◌≡◌, ◌≢◌, refl, subst, sym, ◌⊎◌, inl, inr, Bool, true, some, List, [], ◌∷◌, ◌++◌,
  arith, leb, ◌==◌, Elem, Bool-cases,
}
use sokratos.Semaphore.{
  Priority, background, user, Sem, queued, try_acquire_at, acquire, enqueue, remove_waiter_ch,
  received, close_oldest, dispatch, release, reserve, release_reserved, cancel_reservation, unqueue,
  cancel,
}
use sokratos.Semaphore.World.{cancel_cases}

Elem-append_left : (a : ℕ) (xs ys : List ℕ) → Elem a xs → Elem a (xs ++ ys)
Elem-append_left a (x ∷ xs) ys (inl e) = inl e
Elem-append_left a (x ∷ xs) ys (inr m) = inr (Elem-append_left a xs ys m)
Elem-append_left a [] ys m = absurd m

Elem-snoc : (a : ℕ) (xs : List ℕ) → Elem a (xs ++ a ∷ [])
Elem-snoc a [] = inl refl
Elem-snoc a (x ∷ xs) = inr (Elem-snoc a xs)

Elem-remove : (a ch : ℕ) (ws : List ℕ) → a ≢ ch → Elem a ws → Elem a (remove_waiter_ch ws ch).0
unfolding remove_waiter_ch
Elem-remove a ch [] d m = m
Elem-remove a ch (w ∷ ws) d (inl e) = elim (Bool-cases (w == ch)) [
  | inl hit ↦ absurd (ground arith)
  | inr miss ↦ rw miss (inl e)
]
Elem-remove a ch (w ∷ ws) d (inr m) = elim (Bool-cases (w == ch)) [
  | inl hit ↦ rw hit m
  | inr miss ↦ rw miss (inr (Elem-remove a ch ws d m))
]

pub remove-found : (ch : ℕ) (ws : List ℕ) → Elem ch ws → (remove_waiter_ch ws ch).1 ≡ true
unfolding remove_waiter_ch
remove-found ch [] m = absurd m
remove-found ch (w ∷ ws) (inl e) = ground arith
remove-found ch (w ∷ ws) (inr m) = ground (arith, remove-found ch ws m)

abbrev pub waiters : Sem → Priority → List ℕ
waiters s user = s.high
waiters s background = s.low

-- The channel stands in its queue, or has been closed and waits for its receiver.
abbrev pub IsWaiting : Priority → ℕ → Sem → Type 0
IsWaiting pri ch s = Elem ch (waiters s pri) ⊎ Elem ch s.closed

pub acquire-IsWaiting :
    (s t : Sem) (pri : Priority) (ch : ℕ) → acquire s pri ≡ (t, queued ch) → IsWaiting pri ch t
unfolding acquire enqueue
acquire-IsWaiting s t user ch e = ground (arith, Elem-snoc s.made s.high)
acquire-IsWaiting s t background ch e = ground (arith, Elem-snoc s.made s.low)

-- Whoever is taken from the head of a queue is found among the closed channels.
moved : (a ch : ℕ) (ws cs : List ℕ) → Elem a (ch ∷ ws) → Elem a ws ⊎ Elem a (cs ++ ch ∷ [])
moved a ch ws cs (inl e) = inr (subst (λ c. Elem a (cs ++ c ∷ [])) e (Elem-snoc a cs))
moved a ch ws cs (inr m) = inl m

close_oldest-IsWaiting :
    (s : Sem) (h l : List ℕ) (pri : Priority) (ch : ℕ)
    → IsWaiting pri ch (record s { high = h; low = l })
    → IsWaiting pri ch (close_oldest (record s { high = h; low = l }) h l)
unfolding close_oldest
close_oldest-IsWaiting s [] [] user ch m = m
close_oldest-IsWaiting s [] [] background ch m = m
close_oldest-IsWaiting s [] (c ∷ l) user ch (inl m) = inl m
close_oldest-IsWaiting s [] (c ∷ l) background ch (inl m) = moved ch c l s.closed m
close_oldest-IsWaiting s [] (c ∷ l) user ch (inr m) = inr (Elem-append_left ch s.closed _ m)
close_oldest-IsWaiting s [] (c ∷ l) background ch (inr m) = inr (Elem-append_left ch s.closed _ m)
close_oldest-IsWaiting s (c ∷ h) l user ch (inl m) = moved ch c h s.closed m
close_oldest-IsWaiting s (c ∷ h) l background ch (inl m) = inl m
close_oldest-IsWaiting s (c ∷ h) l user ch (inr m) = inr (Elem-append_left ch s.closed _ m)
close_oldest-IsWaiting s (c ∷ h) l background ch (inr m) = inr (Elem-append_left ch s.closed _ m)

dispatch-IsWaiting :
    (s : Sem) (pri : Priority) (ch : ℕ) → IsWaiting pri ch s → IsWaiting pri ch (dispatch s)
unfolding dispatch
dispatch-IsWaiting s pri ch m = close_oldest-IsWaiting s s.high s.low pri ch m

reserve-IsWaiting :
    (s : Sem) (h : List ℕ) (pri : Priority) (ch : ℕ)
    → IsWaiting pri ch (record s { high = h })
    → IsWaiting pri ch (reserve (record s { high = h }) h)
unfolding reserve
reserve-IsWaiting s [] user ch m = m
reserve-IsWaiting s [] background ch m = m
reserve-IsWaiting s (c ∷ h) user ch (inl m) = moved ch c h s.closed m
reserve-IsWaiting s (c ∷ h) background ch (inl m) = inl m
reserve-IsWaiting s (c ∷ h) user ch (inr m) = inr (Elem-append_left ch s.closed _ m)
reserve-IsWaiting s (c ∷ h) background ch (inr m) = inr (Elem-append_left ch s.closed _ m)

pub release-IsWaiting :
    (s : Sem) (pri : Priority) (ch : ℕ) → IsWaiting pri ch s → IsWaiting pri ch (release s)
unfolding release
release-IsWaiting s pri ch m = dispatch-IsWaiting s pri ch m

pub release_reserved-IsWaiting :
    (s : Sem) (pri : Priority) (ch : ℕ) → IsWaiting pri ch s → IsWaiting pri ch (release_reserved s)
unfolding release_reserved
release_reserved-IsWaiting s pri ch m = reserve-IsWaiting s s.high pri ch m

pub cancel_reservation-IsWaiting :
    (s : Sem) (pri : Priority) (ch : ℕ)
    → IsWaiting pri ch s
    → IsWaiting pri ch (cancel_reservation s)
unfolding cancel_reservation
cancel_reservation-IsWaiting s pri ch m = elim (Bool-cases (leb s.reserved 0)) [
  | inl e ↦ rw e m
  | inr e ↦ rw e (dispatch-IsWaiting u pri ch (unlent pri m))
]
  where
    u : Sem
    u = record s { reserved = s.reserved - 1; avail = s.avail + 1 }

    unlent : (p : Priority) → IsWaiting p ch s → IsWaiting p ch u
    unlent user m = m
    unlent background m = m

-- After a receive the queues are the same, and the channel is gone from the closed ones.
received_fields :
    (s t : Sem) (ch : ℕ)
    → received s ch ≡ some t
    → (t.high ≡ s.high) × (t.low ≡ s.low) × (t.closed ≡ (remove_waiter_ch s.closed ch).0)
unfolding received
received_fields s t ch e = ground arith

pub received-IsWaiting :
    (s t : Sem) (pri : Priority) (ch other : ℕ)
    → ch ≢ other
    → received s other ≡ some t
    → IsWaiting pri ch s
    → IsWaiting pri ch t
received-IsWaiting s t user ch other d e (inl m) =
    inl (subst (Elem ch) (sym (received_fields s t other e).0) m)
received-IsWaiting s t background ch other d e (inl m) =
    inl (subst (Elem ch) (sym (received_fields s t other e).1) m)
received-IsWaiting s t _ ch other d e (inr m) =
    inr (subst (Elem ch) (sym (received_fields s t other e).2) (Elem-remove ch other s.closed d m))

unqueue-IsWaiting :
    (s : Sem) (pri from : Priority) (ch other : ℕ)
    → ch ≢ other
    → IsWaiting pri ch s
    → IsWaiting pri ch (unqueue s from other).0
unfolding unqueue
unqueue-IsWaiting s user user ch other d (inl m) = inl (Elem-remove ch other s.high d m)
unqueue-IsWaiting s background background ch other d (inl m) = inl (Elem-remove ch other s.low d m)
unqueue-IsWaiting s user background ch other d (inl m) = inl m
unqueue-IsWaiting s background user ch other d (inl m) = inl m
unqueue-IsWaiting s user user ch other d (inr m) = inr m
unqueue-IsWaiting s background background ch other d (inr m) = inr m
unqueue-IsWaiting s user background ch other d (inr m) = inr m
unqueue-IsWaiting s background user ch other d (inr m) = inr m

pub cancel-IsWaiting :
    (s : Sem) (pri from : Priority) (ch other : ℕ) (r : Sem × Bool)
    → ch ≢ other
    → cancel s from other ≡ some r
    → IsWaiting pri ch s
    → IsWaiting pri ch r.0
cancel-IsWaiting s pri from ch other r d e m =
    let u = unqueue-IsWaiting s pri from ch other d m in
    elim (cancel_cases s from other r e) [
      | inl p ↦ rw p u
      | inr (t, q, p) ↦ rw p (received-IsWaiting _ t pri ch other d q u)
    ]

-- Two states that agree on the queues and the closed channels.
same_queues :
    (s t : Sem) (pri : Priority) (ch : ℕ)
    → (t.high ≡ s.high) × (t.low ≡ s.low) × (t.closed ≡ s.closed)
    → IsWaiting pri ch s
    → IsWaiting pri ch t
same_queues s t user ch e (inl m) = inl (subst (Elem ch) (sym e.0) m)
same_queues s t background ch e (inl m) = inl (subst (Elem ch) (sym e.1) m)
same_queues s t _ ch e (inr m) = inr (subst (Elem ch) (sym e.2) m)

pub try_acquire_at-IsWaiting :
    (s : Sem) (pri from : Priority) (ch : ℕ)
    → IsWaiting pri ch s
    → IsWaiting pri ch (try_acquire_at s from).0
unfolding try_acquire_at
try_acquire_at-IsWaiting s pri background ch m =
    same_queues s (try_acquire_at s background).0 pri ch (ground arith) m
try_acquire_at-IsWaiting s pri user ch m =
    same_queues s (try_acquire_at s user).0 pri ch (ground arith) m

pub enqueue-IsWaiting :
    (s : Sem) (pri from : Priority) (ch : ℕ)
    → IsWaiting pri ch s
    → IsWaiting pri ch (enqueue s from).0
unfolding enqueue
enqueue-IsWaiting s user user ch (inl m) = inl (Elem-append_left ch s.high _ m)
enqueue-IsWaiting s background background ch (inl m) = inl (Elem-append_left ch s.low _ m)
enqueue-IsWaiting s user background ch (inl m) = inl m
enqueue-IsWaiting s background user ch (inl m) = inl m
enqueue-IsWaiting s user user ch (inr m) = inr m
enqueue-IsWaiting s background background ch (inr m) = inr m
enqueue-IsWaiting s user background ch (inr m) = inr m
enqueue-IsWaiting s background user ch (inr m) = inr m
