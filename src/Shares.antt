-- ===== src/Shares.antt =====
-- engine/share_limiter.go: how often the program may write to the user on its own.
-- `time.Now()` is an argument, in nanoseconds, and `startOfDay` a parameter, since it is made of the
-- calendar of the time package. `none` is the zero time.
pub mod Limits
use sokratos.Base.{
  ℕ, zero, suc, ◌+◌, ◌-◌, ◌*◌, ◌/◌, ◌%◌, ◌^◌, ◌≤◌, ◌<◌, ◌≡◌, ◌≢◌, ◌↔◌, ◌⊎◌, inl, inr, refl, ap, sym,
  ◌∙◌, Bool, true, false, not, ◌&&◌, ◌||◌, Option, none, some, List, [], ◌∷◌, ◌++◌, ltb, leb, ◌==◌,
  if◌then◌else◌, length, take, drop, get_elem?, is_empty, bytes, bytes_eq, ℤ, positive_or, Elem,
  All, Bool-cases, Option-cases, arith, length-append,
}

pub record ShareLimiter : Type 0 where
  pub daily : ℕ
  pub last_sent : Option ℕ
  pub day_start : ℕ
  pub max_daily : ℕ
  pub min_interval : ℕ

abbrev pub half_hour : ℕ
half_hour = 1_800_000_000_000

-- `!sl.lastSent.IsZero() && now.Sub(sl.lastSent) < sl.minInterval`.
abbrev pub too_soon : ShareLimiter → ℕ → Option ℕ → Bool
too_soon sl now none = false
too_soon sl now (some t) = ltb now (t + sl.min_interval)

module _ (start_of_day : ℕ → ℕ) where
  unfoldable pub new_share_limiter : ℤ → ℕ → ShareLimiter
  new_share_limiter max_daily now = record {
    daily = 0;
    last_sent = none;
    day_start = start_of_day now;
    max_daily = positive_or 3 max_daily;
    min_interval = half_hour;
  }

  -- The counter is reset at midnight.
  unfoldable pub new_day : ShareLimiter → ℕ → ShareLimiter
  new_day sl now =
      if ltb sl.day_start (start_of_day now)
      then record sl { daily = 0; day_start = start_of_day now }
      else sl

  unfoldable pub admit : ShareLimiter → ℕ → ShareLimiter × Bool
  admit sl now =
      if leb sl.max_daily sl.daily
      then (sl, false)
      else if too_soon sl now sl.last_sent
      then (sl, false)
      else (record sl { daily = suc sl.daily; last_sent = some now }, true)

  unfoldable pub allow : ShareLimiter → ℕ → ShareLimiter × Bool
  unfolding new_day admit
  allow sl now = admit (new_day sl now) now

  -- The times at which a series of calls is allowed.
  unfoldable pub allowed : ShareLimiter → List ℕ → List ℕ
  unfolding allow
  allowed sl [] = []
  allowed sl (now ∷ nows) =
      let rest = allowed (allow sl now).0 nows in if (allow sl now).1 then now ∷ rest else rest
