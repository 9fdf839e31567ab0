-- ===== src/Routines/Args/Moves.antt =====
-- How far the offset of a template in routines/args.go moves a time.
use sokratos.Base.{
  ℕ, ◌+◌, ◌*◌, ◌%◌, ◌^◌, ◌<◌, ◌≤◌, ◌≡◌, ◌⊎◌, inl, inr, refl, ap, Bool, true, false, Option, none,
  some, ◌∷◌, if◌then◌else◌, ltb, Bool-cases, arith,
}
use sokratos.Routines.Args.{
  negative, decimal, atoi, shift, Calendar, TimeUnit, minutes, hours, days, weeks, Offset,
  apply_offset,
}

-- The multiple of nanoseconds or days that a unit stands for.
abbrev pub unit_scale : TimeUnit → ℕ
unit_scale minutes = 60_000_000_000
unit_scale hours = 3_600_000_000_000
unit_scale days = 1
unit_scale weeks = 7

abbrev pub adds_days : TimeUnit → Bool
adds_days days = true
adds_days weeks = true
adds_days _ = false

-- The word of 64 bits that is `n` units, forwards or backwards.
abbrev pub IsAmount : Bool → ℕ → TimeUnit → ℕ → Type 0
IsAmount true n u w = (w < 2 ^ 64) × ((w + n * unit_scale u) % 2 ^ 64 ≡ 0)
IsAmount false n u w = (w < 2 ^ 64) × (w ≡ (n * unit_scale u) % 2 ^ 64)

amount : Bool → ℕ → TimeUnit → ℕ
amount backwards n u = ((if backwards then negative n else n) * unit_scale u) % 2 ^ 64

amount-IsAmount : (b : Bool) (n : ℕ) (u : TimeUnit) → n < 2 ^ 63 → IsAmount b n u (amount b n u)
unfolding amount
amount-IsAmount true n minutes h = (omega arith, omega (arith, h))
amount-IsAmount true n hours h = (omega arith, omega (arith, h))
amount-IsAmount true n days h = (omega arith, omega (arith, h))
amount-IsAmount true n weeks h = (omega arith, omega (arith, h))
amount-IsAmount false n u h = (omega arith, refl)

-- What becomes of a time: with no offset nothing. An offset whose number is 2 ^ 63 or more is left
-- out; any other moves the time by its amount, in days for days and weeks, else in nanoseconds.
abbrev pub IsMoved : {T : Type 0} → Calendar T → Option Offset → T → T → Type 0
IsMoved calendar none t t' = t' ≡ t
IsMoved calendar (some o) t t' =
    let n = decimal 0 (o.first_digit ∷ o.digits) in
    ((2 ^ 63 ≤ n) × (t' ≡ t))
    ⊎ ((n < 2 ^ 63)
        × ((w : ℕ) × IsAmount o.is_negative n o.unit w
            × (t' ≡ (if adds_days o.unit then calendar.add_days t w else calendar.add t w))))

module _ {T : Type 0} (calendar : Calendar T) (t : T) where
  shift-amount :
      (b : Bool) (n : ℕ) (u : TimeUnit)
      → n < 2 ^ 63
      → shift calendar u (if b then negative n else n) t ≡ (
          if adds_days u then calendar.add_days t (amount b n u) else calendar.add t (amount b n u))
  unfolding shift amount
  shift-amount b n minutes h = refl
  shift-amount b n hours h = refl
  shift-amount true n days h = ap (calendar.add_days t) (omega (arith, h))
  shift-amount false n days h = ap (calendar.add_days t) (omega (arith, h))
  shift-amount b n weeks h = refl

  pub apply_offset-IsMoved : (o : Option Offset) → IsMoved calendar o t (apply_offset calendar t o)
  unfolding apply_offset atoi
  apply_offset-IsMoved none = refl
  apply_offset-IsMoved (some o) =
      let n = decimal 0 (o.first_digit ∷ o.digits) in
      elim (Bool-cases (ltb n (2 ^ 63))) [
        | inl e ↦
            let small : n < 2 ^ 63 = ground arith in
            inr (
              small,
              (
                amount o.is_negative n o.unit,
                amount-IsAmount o.is_negative n o.unit small,
                rw (apply_offset, e) (shift-amount o.is_negative n o.unit small),
              ),
            )
        | inr e ↦ inl (ground arith, rw (apply_offset, e) refl)
      ]
