-- ===== src/Routines/Args.antt =====
-- routines/args.go: the templates in the arguments of an action.
-- Texts are bytes. A time is of any type `T`, and what the time package does with one is a `Calendar`.
-- An int is a 64-bit word in two's complement. `templateRe` is matched by clauses: at most one
-- keyword, one offset and one unit fit at a place, so that there is nothing to choose.
pub mod Templates
pub mod Moves
use sokratos.Base.{
  ℕ, zero, suc, ◌+◌, ◌-◌, ◌*◌, ◌/◌, ◌%◌, ◌^◌, ◌≤◌, ◌<◌, ◌≡◌, ◌≢◌, ◌↔◌, ◌⊎◌, inl, inr, refl, ap, sym,
  subst, ◌∙◌, Bool, true, false, not, ◌&&◌, ◌||◌, Option, none, some, List, [], ◌∷◌, ◌++◌, ltb, leb,
  ◌==◌, if◌then◌else◌, length, take, drop, get_elem?, get_last?, is_empty, bytes, bytes_eq, map,
  has_prefix,
}
use mathlib.Core.Option
use sokratos.Routines.{contains}

-- `time.Date` of the day alone, `AddDate` for days, `Add` for nanoseconds, and `Format`.
pub record Calendar (T : Type 0) : Type 0 where
  pub midnight : T → T
  pub add_days : T → ℕ → T
  pub add : T → ℕ → T
  pub format : T → List ℕ

pub data Keyword : Type 0 where
  today : Keyword
  tomorrow : Keyword
  yesterday : Keyword
  now : Keyword

pub data TimeUnit : Type 0 where
  minutes : TimeUnit
  hours : TimeUnit
  days : TimeUnit
  weeks : TimeUnit

-- What the second group of `templateRe` matches: a sign, digits of which there is one, and a unit.
pub record Offset : Type 0 where
  pub is_negative : Bool
  pub first_digit : ℕ
  pub digits : List ℕ
  pub unit : TimeUnit

-- An argument: a text, or a value of another kind.
pub data ArgValue (J : Type 0) : Type 0 where
  text : List ℕ → ArgValue J
  other : J → ArgValue J

abbrev pub negative : ℕ → ℕ
negative n = (2 ^ 64 - n) % 2 ^ 64

unfoldable pub decimal : ℕ → List ℕ → ℕ
decimal n [] = n
decimal n (c ∷ s) = decimal (n * 10 + (c - 48)) s

-- `strconv.Atoi` on digits.
unfoldable pub atoi : List ℕ → Option ℕ
unfolding decimal
atoi s = let n = decimal 0 s in if ltb n (2 ^ 63) then some n else none

-- The text behind the prefix.
unfoldable pub cut_prefix : List ℕ → List ℕ → Option (List ℕ)
cut_prefix [] s = some s
cut_prefix (p ∷ prefix) [] = none
cut_prefix (p ∷ prefix) (c ∷ s) = if c == p then cut_prefix prefix s else none

abbrev pub is_digit : ℕ → Bool
is_digit c = leb 48 c && leb c 57

-- The digits at the front, and the rest.
unfoldable pub span_digits : List ℕ → List ℕ × List ℕ
span_digits [] = ([], [])
span_digits (c ∷ s) =
    let rest = span_digits s in if is_digit c then (c ∷ rest.0, rest.1) else ([], c ∷ s)

abbrev pub unit_of : ℕ → Option TimeUnit
unit_of c =
    if c == b'm'
    then some minutes
    else if c == b'h'
    then some hours
    else if c == b'd'
    then some days
    else if c == b'w'
    then some weeks
    else none

-- The offset, if one is there, and the rest.
unfoldable pub take_unit : Bool → List ℕ × List ℕ → Option (Offset × List ℕ)
take_unit is_negative ([], rest) = none
take_unit is_negative (d ∷ ds, []) = none
take_unit is_negative (d ∷ ds, c ∷ rest) = elim (unit_of c) [
  | none ↦ none
  | some u ↦
      some (record { is_negative = is_negative; first_digit = d; digits = ds; unit = u }, rest)
]

-- `([+-]\d+[mhdw])?` with what must follow it, "}}".
unfoldable pub take_end : List ℕ → Option (Option Offset × List ℕ)
unfolding take_unit span_digits cut_prefix
take_end [] = none
take_end (c ∷ s) =
    if (c == b'+') || (c == b'-')
    then elim (take_unit (c == b'-') (span_digits s)) [
      | none ↦ none
      | some (offset, rest) ↦ elim (cut_prefix (bytes "}}") rest) [
        | none ↦ none
        | some rest' ↦ some (some offset, rest')
      ]
    ]
    else elim (cut_prefix (bytes "}}") (c ∷ s)) [ none ↦ none | some rest ↦ some (none, rest) ]

unfoldable pub take_keyword : List ℕ → Option (Keyword × List ℕ)
unfolding cut_prefix
take_keyword s = elim (cut_prefix (bytes "today") s) [
  | some rest ↦ some (today, rest)
  | none ↦ elim (cut_prefix (bytes "tomorrow") s) [
    | some rest ↦ some (tomorrow, rest)
    | none ↦ elim (cut_prefix (bytes "yesterday") s) [
      | some rest ↦ some (yesterday, rest)
      | none ↦ elim (cut_prefix (bytes "now") s) [ some rest ↦ some (now, rest) | none ↦ none ]
    ]
  ]
]

-- What follows the keyword.
unfoldable pub match_end : Option (Keyword × List ℕ) → Option (Keyword × Option Offset × List ℕ)
unfolding take_end
match_end none = none
match_end (some (keyword, s)) =
    Option.map (λ (o : Option Offset × List ℕ). (keyword, o.0, o.1)) (take_end s)

-- A match of `templateRe` at the front: its groups and the rest.
unfoldable pub match_template : List ℕ → Option (Keyword × Option Offset × List ℕ)
unfolding cut_prefix take_keyword match_end
match_template s = elim (cut_prefix (bytes "{{") s) [
  | none ↦ none
  | some rest ↦ match_end (take_keyword rest)
]

module _ {T : Type 0} (calendar : Calendar T) where
  unfoldable pub base_time : Keyword → T → T
  base_time today t = calendar.midnight t
  base_time tomorrow t = calendar.midnight (calendar.add_days t 1)
  base_time yesterday t = calendar.midnight (calendar.add_days t (negative 1))
  base_time now t = t

  unfoldable pub shift : TimeUnit → ℕ → T → T
  shift minutes n t = calendar.add t ((n * 60_000_000_000) % 2 ^ 64)
  shift hours n t = calendar.add t ((n * 3_600_000_000_000) % 2 ^ 64)
  shift days n t = calendar.add_days t n
  shift weeks n t = calendar.add_days t ((n * 7) % 2 ^ 64)

  unfoldable pub apply_offset : T → Option Offset → T
  unfolding atoi shift
  apply_offset t none = t
  apply_offset t (some o) = elim (atoi (o.first_digit ∷ o.digits)) [
    | none ↦ t
    | some n ↦ shift o.unit (if o.is_negative then negative n else n) t
  ]

  -- `skipped` is what is left of the last match.
  unfoldable pub expand_from : T → ℕ → List ℕ → List ℕ
  unfolding match_template base_time apply_offset
  expand_from t skipped [] = []
  expand_from t (suc skipped) (c ∷ s) = expand_from t skipped s
  expand_from t zero (c ∷ s) = elim (match_template (c ∷ s)) [
    | none ↦ c ∷ expand_from t zero s
    | some (keyword, offset, rest) ↦
        calendar.format (apply_offset (base_time keyword t) offset)
        ++ expand_from t (length s - length rest) s
  ]

  -- `expandString`.
  unfoldable pub expand_string_at : T → List ℕ → List ℕ
  unfolding expand_from
  expand_string_at t s = expand_from t 0 s

  -- `ExpandString`: a text without "{{" is returned at once.
  unfoldable pub expand_string : T → List ℕ → List ℕ
  unfolding contains expand_string_at
  expand_string t s = if not (contains s (bytes "{{")) then s else expand_string_at t s

  unfoldable pub expand_args :
      {J : Type 0} → T → List (List ℕ × ArgValue J) → List (List ℕ × ArgValue J)
  unfolding expand_string_at
  expand_args t [] = []
  expand_args t ((k, text s) ∷ args) = (k, text (expand_string_at t s)) ∷ expand_args t args
  expand_args t ((k, other v) ∷ args) = (k, other v) ∷ expand_args t args

  -- The map is none where JSON's null leaves it nil.
  unfoldable pub expand_and_marshal :
      {J : Type 0}
      → (List ℕ → Option (Option (List (List ℕ × ArgValue J))))
      → (Option (List (List ℕ × ArgValue J)) → Option (List ℕ))
      → T
      → List ℕ
      → List ℕ
  unfolding expand_args
  expand_and_marshal unmarshal marshal t [] = []
  expand_and_marshal unmarshal marshal t (c ∷ raw) = elim (unmarshal (c ∷ raw)) [
    | none ↦ c ∷ raw
    | some args ↦ elim (marshal (Option.map (expand_args t) args)) [
      | none ↦ c ∷ raw
      | some out ↦ out
    ]
  ]
