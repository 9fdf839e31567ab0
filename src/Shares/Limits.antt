-- ===== src/Shares/Limits.antt =====
-- The two limits of engine/share_limiter.go.
use sokratos.Base.{
  ℕ, suc, ◌+◌, ◌≤◌, ◌<◌, ◌≡◌, ◌⊎◌, inl, inr, refl, sym, subst, sym, Bool, true, false, Option, none,
  some, List, [], ◌∷◌, ltb, leb, if◌then◌else◌, length, All, Bool-cases, arith,
}
use sokratos.Shares.{ShareLimiter, too_soon, allow, allowed, new_day, admit}

-- The next time is at least `min` after the one before it.
abbrev pub After : ℕ → Option ℕ → ℕ → Type 0
After min none t = Unit
After min (some s) t = s + min ≤ t

abbrev pub Spaced : ℕ → Option ℕ → List ℕ → Type 0
Spaced min before [] = Unit
Spaced min before (t ∷ ts) = After min before t × Spaced min (some t) ts

module _ (start_of_day : ℕ → ℕ) where
  soon_false :
      (sl : ShareLimiter) (now : ℕ) (o : Option ℕ)
      → too_soon sl now o ≡ false
      → After sl.min_interval o now
  soon_false sl now none h = tt
  soon_false sl now (some t) h = ground arith

  new_day_keeps :
      (sl : ShareLimiter) (now : ℕ)
      → ((new_day start_of_day sl now).min_interval ≡ sl.min_interval)
        × ((new_day start_of_day sl now).max_daily ≡ sl.max_daily)
        × ((new_day start_of_day sl now).last_sent ≡ sl.last_sent)
        × ((start_of_day now ≡ sl.day_start) → new_day start_of_day sl now ≡ sl)
  unfolding new_day
  new_day_keeps sl now = elim (Bool-cases (ltb sl.day_start (start_of_day now))) [
    | inl e ↦ rw e (refl, refl, refl, λ h. ground arith)
    | inr e ↦ rw e (refl, refl, refl, λ h. refl)
  ]

  -- A call is refused and changes no limit, or it is allowed, counted and noted.
  abbrev Admits : ShareLimiter → ℕ → ShareLimiter × Bool → Type 0
  Admits sl now (sl', b) =
      (sl'.min_interval ≡ sl.min_interval)
      × (sl'.max_daily ≡ sl.max_daily)
      × (sl'.day_start ≡ sl.day_start)
      × (((b ≡ false) × (sl'.last_sent ≡ sl.last_sent) × (sl'.daily ≡ sl.daily))
          ⊎ ((b ≡ true)
              × (sl'.last_sent ≡ some now)
              × (sl'.daily ≡ suc sl.daily)
              × (sl.daily < sl.max_daily)
              × After sl.min_interval sl.last_sent now))

  admit-Admits : (sl : ShareLimiter) (now : ℕ) → Admits sl now (admit start_of_day sl now)
  unfolding admit
  admit-Admits sl now = elim (Bool-cases (leb sl.max_daily sl.daily)) [
    | inl e ↦ rw e (refl, refl, refl, inl (refl, refl, refl))
    | inr e ↦ rw e (elim (Bool-cases (too_soon sl now sl.last_sent)) [
      | inl f ↦ rw f (refl, refl, refl, inl (refl, refl, refl))
      | inr f ↦
          rw f (
            refl,
            refl,
            refl,
            inr (refl, refl, refl, ground arith, soon_false sl now sl.last_sent f),
          )
    ])
  ]

  Spaced-next :
      (sl sl' : ShareLimiter) (b : Bool) (now : ℕ) (rest : List ℕ)
      → Admits sl now (sl', b)
      → Spaced sl'.min_interval sl'.last_sent rest
      → Spaced sl.min_interval sl.last_sent (if b then now ∷ rest else rest)
  Spaced-next sl sl' b now rest (m, _, _, inl (e, l, _)) h = rw (e, sym m, sym l) h
  Spaced-next sl sl' b now rest (m, _, _, inr (e, l, _, _, a)) h =
      rw e (
        a,
        subst (λ x. Spaced x (some now) rest) m (subst (λ o. Spaced sl'.min_interval o rest) l h),
      )

  -- Two successive messages of the program's own are at least `min_interval` apart, over any series
  -- of calls, whatever the clock does and across midnight.
  pub allowed-Spaced :
      (sl : ShareLimiter) (nows : List ℕ)
      → Spaced sl.min_interval sl.last_sent (allowed start_of_day sl nows)
  unfolding allowed allow
  allowed-Spaced sl [] = tt
  allowed-Spaced sl (now ∷ nows) =
      let keeps = new_day_keeps sl now in
      subst (λ x. Spaced x sl.last_sent (allowed start_of_day sl (now ∷ nows))) keeps.0
        (subst
          (λ o.
            Spaced (new_day start_of_day sl now).min_interval o
              (allowed start_of_day sl (now ∷ nows)))
          keeps.2
          (Spaced-next (new_day start_of_day sl now) (allow start_of_day sl now).0
            (allow start_of_day sl now).1 now
            (allowed start_of_day (allow start_of_day sl now).0 nows)
            (admit-Admits (new_day start_of_day sl now) now)
            (allowed-Spaced (allow start_of_day sl now).0 nows)))

  count_next :
      (sl sl' : ShareLimiter) (b : Bool) (now : ℕ) (rest : List ℕ)
      → Admits sl now (sl', b)
      → sl.daily ≤ sl.max_daily
      → (sl'.daily ≤ sl'.max_daily → length rest + sl'.daily ≤ sl'.max_daily)
      → length (if b then now ∷ rest else rest) + sl.daily ≤ sl.max_daily
  count_next sl sl' b now rest (_, m, _, inl (e, _, d)) h ih =
      rw e (omega (arith, ih (omega arith)))
  count_next sl sl' b now rest (_, m, _, inr (e, _, d, lt, _)) h ih =
      rw e (omega (arith, ih (omega arith)))

  -- Within one day, at most `max_daily` messages go out, and those sent before count.
  allowed_within_day :
      (sl : ShareLimiter) (nows : List ℕ)
      → sl.daily ≤ sl.max_daily
      → All (λ now. start_of_day now ≡ sl.day_start) nows
      → length (allowed start_of_day sl nows) + sl.daily ≤ sl.max_daily
  unfolding allowed allow
  allowed_within_day sl [] h day = omega arith
  allowed_within_day sl (now ∷ nows) h day = rw ((new_day_keeps sl now).3 day.0) (
      count_next sl (admit start_of_day sl now).0 (admit start_of_day sl now).1 now
        (allowed start_of_day (admit start_of_day sl now).0 nows) (admit-Admits sl now) h
        (λ k. allowed_within_day (admit start_of_day sl now).0 nows k (
          subst (λ d. All (λ now. start_of_day now ≡ d) nows) (sym (admit-Admits sl now).2) day.1)))
