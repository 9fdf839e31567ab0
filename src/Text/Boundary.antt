-- ===== src/Text/Boundary.antt =====
-- Where textutil/textutil.go cuts a text.
use sokratos.Base.{
  ℕ, zero, suc, ◌+◌, ◌≤◌, ◌<◌, ◌≡◌, ◌⊎◌, inl, inr, refl, sym, subst, Bool, true, false, List, [],
  ◌∷◌, ◌++◌, leb, length, take, get_elem?, bytes, Bool-cases, arith, length-append,
}
use sokratos.Text.{starts_at, back_off, truncate}

-- No rune starts at any of `r + 1`, …, `n`.
abbrev pub NoStart : (ℕ → Bool) → List ℕ → ℕ → ℕ → Type 0
NoStart rune_start s r zero = Unit
NoStart rune_start s r (suc n) =
    (suc n ≤ r) ⊎ ((starts_at rune_start (get_elem? s (suc n)) ≡ false) × NoStart rune_start s r n)

-- The last place up to `n` where a rune starts, or 0.
abbrev pub IsLastStart : (ℕ → Bool) → List ℕ → ℕ → ℕ → Type 0
IsLastStart rune_start s n r =
    (r ≤ n) × ((r ≡ 0) ⊎ (starts_at rune_start (get_elem? s r) ≡ true)) × NoStart rune_start s r n

pub length-take-min : {A : Type 0} (n : ℕ) (xs : List A) → length (take n xs) ≤ n
length-take-min zero xs = omega arith
length-take-min (suc n) [] = omega arith
length-take-min (suc n) (x ∷ xs) = omega (arith, length-take-min n xs)

skipped :
    (rune_start : ℕ → Bool) (s : List ℕ) (n : ℕ)
    → starts_at rune_start (get_elem? s (suc n)) ≡ false
    → back_off rune_start s (suc n) ≡ back_off rune_start s n
unfolding back_off
skipped rune_start s n e = rw e refl

back_off-IsLastStart :
    (rune_start : ℕ → Bool) (s : List ℕ) (n : ℕ)
    → IsLastStart rune_start s n (back_off rune_start s n)
unfolding back_off
back_off-IsLastStart rune_start s zero = (omega arith, inl refl, tt)
back_off-IsLastStart rune_start s (suc n) =
    elim (Bool-cases (starts_at rune_start (get_elem? s (suc n)))) [
      | inl e ↦ rw e (omega arith, inr e, inl (omega arith))
      | inr e ↦
          let (le, start, none_between) = back_off-IsLastStart rune_start s n in
          subst (IsLastStart rune_start s (suc n)) (sym (skipped rune_start s n e))
            (omega arith, start, inr (e, none_between))
    ]

-- A text of at most `n` bytes is unchanged; a longer one is cut at the last place up to `n` where a
-- rune starts, with three dots after it, so that it has at most `n + 3` bytes.
truncate_at_rune :
    (rune_start : ℕ → Bool) (s : List ℕ) (n : ℕ)
    → ((length s ≤ n) × (truncate rune_start s n ≡ s))
      ⊎ ((n < length s)
          × ((r : ℕ) × (truncate rune_start s n ≡ take r s ++ bytes "...")
              × IsLastStart rune_start s n r)
          × (length (truncate rune_start s n) ≤ n + 3))
unfolding truncate
truncate_at_rune rune_start s n = elim (Bool-cases (leb (length s) n)) [
  | inl e ↦ inl (rw e (ground arith, refl))
  | inr e ↦
      inr
        let r = back_off rune_start s n in
          let last = back_off-IsLastStart rune_start s n in
          (
            ground arith,
            (r, rw e refl, last),
            rw e (
                omega (arith, length-append (take r s) (bytes "..."), length-take-min r s, last.0)),
          )
]
