-- ===== src/Schedule.antt =====
-- timefmt/timefmt.go `ParseSchedule` and routines/schedule.go: the times of the day at which a
-- routine runs. A text is its bytes; `strings.TrimSpace` and the instant of a time of today are
-- parameters, since they belong to libraries.
pub mod Format
use sokratos.Base.{
  ℕ, zero, suc, ◌+◌, ◌-◌, ◌*◌, ◌/◌, ◌%◌, ◌^◌, ◌≤◌, ◌<◌, ◌≡◌, ◌≢◌, ◌↔◌, ◌⊎◌, inl, inr, refl, ap, sym,
  ◌∙◌, Bool, true, false, not, ◌&&◌, ◌||◌, Option, none, some, List, [], ◌∷◌, ◌++◌, ltb, leb, ◌==◌,
  if◌then◌else◌, length, take, drop, get_elem?, is_empty, bytes, bytes_eq, ℤ, positive_or, Elem,
  All, Bool-cases, Option-cases, arith, length-append,
}

-- `int(b - '0')` of a byte, which wraps around.
abbrev pub digit : ℕ → ℕ
digit b = (b + 208) % 2 ^ 8

abbrev pub in_range : ℕ → ℕ → Option (ℕ × ℕ)
in_range h m = if ltb 23 h || ltb 59 m then none else some (h, m)

unfoldable pub parse_schedule : List ℕ → Option (ℕ × ℕ)
parse_schedule (a ∷ b ∷ c ∷ d ∷ e ∷ []) =
    if c == b':' then in_range (digit a * 10 + digit b) (digit d * 10 + digit e) else none
parse_schedule _ = none

-- What a schedule is decoded from: an entry of a list may be no text.
pub data Value : Type 0 where
  text : List ℕ → Value
  texts : List (List ℕ) → Value
  items : List (Option (List ℕ)) → Value
  other : Value

-- `strings.Join(s, ",")`.
unfoldable pub join : List (List ℕ) → List ℕ
join [] = []
join (s ∷ []) = s
join (s ∷ t ∷ rest) = s ++ b',' ∷ join (t ∷ rest)

unfoldable pub only_texts : List (Option (List ℕ)) → List (List ℕ)
only_texts [] = []
only_texts (none ∷ rest) = only_texts rest
only_texts (some s ∷ rest) = s ∷ only_texts rest

unfoldable pub normalize_schedule : Value → List ℕ
unfolding join only_texts
normalize_schedule (text s) = s
normalize_schedule (texts s) = join s
normalize_schedule (items s) = join (only_texts s)
normalize_schedule other = []

abbrev pub on_first : ℕ → List (List ℕ) → List (List ℕ)
on_first c [] = (c ∷ []) ∷ []
on_first c (s ∷ rest) = (c ∷ s) ∷ rest

-- `strings.Split(s, ",")`.
unfoldable pub split : List ℕ → List (List ℕ)
split [] = [] ∷ []
split (c ∷ s) = let rest = split s in if c == b',' then [] ∷ rest else on_first c rest

module _ (trim_space : List ℕ → List ℕ) where
  unfoldable pub non_empty : List (List ℕ) → List (List ℕ)
  non_empty [] = []
  non_empty (p ∷ parts) =
      let rest = non_empty parts in if is_empty (trim_space p) then rest else trim_space p ∷ rest

  unfoldable pub parse_schedules : List ℕ → List (List ℕ)
  unfolding split non_empty
  parse_schedules s = if is_empty s then [] else non_empty (split s)

  -- The first entry that is no time.
  unfoldable pub first_invalid : List (List ℕ) → Option (List ℕ)
  unfolding parse_schedule
  first_invalid [] = none
  first_invalid (s ∷ rest) = elim (parse_schedule s) [ none ↦ some s | some t ↦ first_invalid rest ]

  unfoldable pub validate_schedules : Value → Option (List ℕ)
  unfolding normalize_schedule parse_schedules first_invalid
  validate_schedules v =
      let s = normalize_schedule v in if is_empty s then none else first_invalid (parse_schedules s)

-- `today h m` is the instant of that time on the day of `now`.
module _ (today : ℕ → ℕ → ℕ) (now last_executed : ℕ) where
  abbrev pub due_at : Option (ℕ × ℕ) → Bool
  due_at none = false
  due_at (some (h, m)) = ltb (today h m) now && ltb last_executed (today h m)

  unfoldable pub is_schedule_due : List (List ℕ) → Bool
  unfolding parse_schedule
  is_schedule_due [] = false
  is_schedule_due (s ∷ rest) = due_at (parse_schedule s) || is_schedule_due rest
