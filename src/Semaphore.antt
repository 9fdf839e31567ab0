-- ===== src/Semaphore.antt =====
-- engine/priority_sem.go: the counting semaphore with priorities and reservations.
-- Every method runs under the mutex, so a call is one function of the state. A channel is the
-- number under which `make` returned it. `closed` holds the closed channels whose one receiver has
-- not yet come past its receive; a waiter that blocks in `Acquire` is `queued ch`, and goes on by
-- `received` (the branch `<-ch` of the select) or by `cancel` (the branch `<-ctx.Done()`).
pub mod World
pub mod Conservation
pub mod Overbooking
pub mod Service
pub mod Idle
pub mod Waiting
pub mod Cancellation
use sokratos.Base.{
  ℕ, suc, ◌+◌, ◌-◌, Bool, true, false, ◌&&◌, ◌||◌, Option, none, some, List, [], ◌∷◌, ◌++◌, ltb,
  leb, ◌==◌, if◌then◌else◌, is_empty, ℤ, sub_ℕ, positive_or,
}
use mathlib.Core.Option

pub data Priority : Type 0 where
  background user : Priority

pub record Sem : Type 0 where
  pub avail : ℕ
  pub reserved : ℕ
  pub cap : ℕ
  pub high : List ℕ
  pub low : List ℕ
  pub made : ℕ
  pub closed : List ℕ

pub data Acquired : Type 0 where
  granted : Acquired
  queued : ℕ → Acquired

unfoldable pub new_sem : ℤ → Sem
new_sem slots =
    let n = positive_or 1 slots in
    record { avail = n; reserved = 0; cap = n; high = []; low = []; made = 0; closed = [] }

-- `pri >= PriorityUser`.
abbrev pub at_user : Priority → Bool
at_user user = true
at_user background = false

unfoldable pub try_acquire_at : Sem → Priority → Sem × Bool
try_acquire_at s pri =
    if at_user pri
    then (if ltb 0 s.reserved
        then (record s { reserved = s.reserved - 1 }, true)
        else if ltb 0 s.avail
        then (record s { avail = s.avail - 1 }, true)
        else (s, false))
    else if ltb 0 s.avail && is_empty s.high
    then (record s { avail = s.avail - 1 }, true)
    else (s, false)

unfoldable pub try_acquire : Sem → Sem × Bool
unfolding try_acquire_at
try_acquire s = try_acquire_at s user

-- The slow path: a new channel, at the end of its queue.
unfoldable pub enqueue : Sem → Priority → Sem × Acquired
enqueue s user = (record s { high = s.high ++ s.made ∷ []; made = suc s.made }, queued s.made)
enqueue s background = (record s { low = s.low ++ s.made ∷ []; made = suc s.made }, queued s.made)

-- `Acquire` up to its select.
unfoldable pub acquire : Sem → Priority → Sem × Acquired
unfolding enqueue
acquire s pri =
    if at_user pri && ltb 0 s.reserved
    then (record s { reserved = s.reserved - 1 }, granted)
    else if ltb 0 s.avail && (at_user pri || is_empty s.high)
    then (record s { avail = s.avail - 1 }, granted)
    else enqueue s pri

-- `removeWaiterCh`: the queue without its first `ch`, and whether `ch` stood there.
unfoldable pub remove_waiter_ch : List ℕ → ℕ → List ℕ × Bool
remove_waiter_ch [] ch = ([], false)
remove_waiter_ch (w ∷ ws) ch =
    let rest = remove_waiter_ch ws ch in if w == ch then (ws, true) else (w ∷ rest.0, rest.1)

-- `<-ch`: goes on only when the channel is closed.
unfoldable pub received : Sem → ℕ → Option Sem
unfolding remove_waiter_ch
received s ch =
    let rest = remove_waiter_ch s.closed ch in
    if rest.1 then some (record s { closed = rest.0 }) else none

close_oldest : Sem → List ℕ → List ℕ → Sem
close_oldest s [] [] = record s { avail = s.avail + 1 }
close_oldest s [] (ch ∷ low) = record s { low = low; closed = s.closed ++ ch ∷ [] }
close_oldest s (ch ∷ high) low = record s { high = high; closed = s.closed ++ ch ∷ [] }

unfoldable pub dispatch : Sem → Sem
unfolding close_oldest
dispatch s = close_oldest s s.high s.low

unfoldable pub release : Sem → Sem
unfolding dispatch
release s = dispatch s

reserve : Sem → List ℕ → Sem
reserve s [] = record s { reserved = s.reserved + 1 }
reserve s (ch ∷ high) = record s { high = high; closed = s.closed ++ ch ∷ [] }

unfoldable pub release_reserved : Sem → Sem
unfolding reserve
release_reserved s = reserve s s.high

unfoldable pub cancel_reservation : Sem → Sem
unfolding dispatch
cancel_reservation s =
    if leb s.reserved 0
    then s
    else dispatch (record s { reserved = s.reserved - 1; avail = s.avail + 1 })

unfoldable pub unqueue : Sem → Priority → ℕ → Sem × Bool
unfolding remove_waiter_ch
unqueue s user ch = let rest = remove_waiter_ch s.high ch in (record s { high = rest.0 }, rest.1)
unqueue s background ch =
    let rest = remove_waiter_ch s.low ch in (record s { low = rest.0 }, rest.1)

-- The branch `<-ctx.Done()` up to its `s.Release()`. The flag is `removed`: if it is false, the
-- slot that the closed channel stood for is in hand. `none`: the drain `<-ch` blocks.
unfoldable pub cancel : Sem → Priority → ℕ → Option (Sem × Bool)
cancel s pri ch =
    let out = unqueue s pri ch in
    if out.1 then some (out.0, true) else Option.map (λ t. (t, false)) (received out.0 ch)

-- The whole branch: a slot in hand goes back.
unfoldable pub acquire_cancelled : Sem → Priority → ℕ → Option Sem
unfolding cancel release
acquire_cancelled s pri ch =
    Option.map (λ (r : Sem × Bool). if r.1 then r.0 else release r.0) (cancel s pri ch)

unfoldable pub slots_in_use : Sem → ℤ × ℕ
slots_in_use s = (sub_ℕ s.cap (s.avail + s.reserved), s.cap)
