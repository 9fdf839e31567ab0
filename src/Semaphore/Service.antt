-- ===== src/Semaphore/Service.antt =====
-- Who is served by engine/priority_sem.go, and in which order.
use sokratos.Base.{
  ℕ, zero, suc, ◌+◌, ◌-◌, ◌<◌, ◌≡◌, refl, ◌∙◌, ◌↔◌, true, List, [], ◌∷◌, ◌++◌, arith, if◌then◌else◌,
  length, take, take-nil, drop, drop-nil,
}
use mathlib.Core.List.{append-nil, append_assoc}
use sokratos.Semaphore.{
  Priority, background, user, Sem, granted, try_acquire_at, acquire, enqueue, release,
}

-- `n` slots come back, one after the other.
pub releases_of : ℕ → Sem → Sem
releases_of zero s = s
releases_of (suc n) s = releases_of n (release s)

-- `t` is `s` after `n` slots came back, where `h` and `l` waited.
pub record IsServed (n : ℕ) (s : Sem) (h l : List ℕ) (t : Sem) : Type 0 where
  pub woken : t.closed ≡ s.closed ++ take n (h ++ l)
  pub spare : t.avail ≡ s.avail + (n - length (h ++ l))
  pub users_left : t.high ≡ drop n h
  pub others_left : t.low ≡ drop (n - length h) l
  pub kept : t.reserved ≡ s.reserved

releases_of-IsServed :
    (n : ℕ) (s : Sem) (h l : List ℕ)
    → IsServed n s h l (releases_of n (record s { high = h; low = l }))
unfolding releases_of release
releases_of-IsServed zero s h l = record {
  woken = simp append-nil;
  spare = omega arith;
  users_left = refl;
  others_left = ground arith;
  kept = refl;
}
releases_of-IsServed (suc n) s [] [] =
    let ih = releases_of-IsServed n (record s { avail = s.avail + 1 }) [] [] in
    record {
      woken = ground (arith, ih, take-nil {A = ℕ} n);
      spare = omega (arith, ih.spare);
      users_left = ground (arith, ih, drop-nil {A = ℕ} n);
      others_left = ground (arith, ih, drop-nil {A = ℕ} n);
      kept = ih.kept;
    }
releases_of-IsServed (suc n) s [] (ch ∷ l) =
    let ih = releases_of-IsServed n (record s { closed = s.closed ++ ch ∷ [] }) [] l in
    record {
      woken = ih.woken ∙ append_assoc s.closed (ch ∷ []) (take n l);
      spare = omega (arith, ih.spare);
      users_left = ground (arith, ih, drop-nil {A = ℕ} n);
      others_left = ground (arith, ih);
      kept = ih.kept;
    }
releases_of-IsServed (suc n) s (ch ∷ h) l =
    let ih = releases_of-IsServed n (record s { closed = s.closed ++ ch ∷ [] }) h l in
    record {
      woken = ih.woken ∙ append_assoc s.closed (ch ∷ []) (take n (h ++ l));
      spare = omega (arith, ih.spare);
      users_left = ih.users_left;
      others_left = ground (arith, ih);
      kept = ih.kept;
    }

-- When `n` slots come back with `Release`, the first `n` waiters are woken, the users before the
-- background callers and each queue oldest first; the slots that nobody waits for become free;
-- the other waiters keep their order, and no reservation is touched.
pub releases_of_order : (n : ℕ) (s : Sem) → IsServed n s s.high s.low (releases_of n s)
releases_of_order n s = releases_of-IsServed n s s.high s.low

-- `Acquire` takes a slot exactly when `TryAcquireAt` at the same priority would, and leaves the
-- same state; otherwise it waits at the end of the queue of its priority.
pub acquire-try_acquire_at :
    (s : Sem) (pri : Priority)
    → acquire s pri
      ≡ (let r = try_acquire_at s pri in if r.1 then (r.0, granted) else enqueue s pri)
unfolding acquire try_acquire_at
acquire-try_acquire_at s background = ground arith
acquire-try_acquire_at s user = ground arith

-- A background call of `TryAcquireAt` succeeds exactly when an unreserved slot is free and no user
-- waits, and never takes a reservation; a user's succeeds exactly when any slot is free, and takes
-- a reserved one first.
pub try_acquire_at_iff :
    (s : Sem)
    → ((try_acquire_at s background).1 ≡ true ↔ ((0 < s.avail) × (s.high ≡ [])))
      × ((try_acquire_at s background).0.reserved ≡ s.reserved)
      × ((try_acquire_at s user).1 ≡ true ↔ (0 < s.avail + s.reserved))
      × ((try_acquire_at s user).0.reserved ≡ s.reserved - 1)
unfolding try_acquire_at
try_acquire_at_iff s = (
  (λ h. ground arith, λ h. ground arith),
  ground arith,
  (λ h. ground arith, λ h. ground arith),
  ground arith,
)
