-- ===== src/Routines/Args/Templates.antt =====
-- The templates of routines/args.go: which texts they are, and what stands beside them.
use sokratos.Base.{
  ℕ, ◌-◌, ◌≡◌, inl, inr, refl, ap, sym, ◌∙◌, Bool, true, false, Option, none, some, List, [], ◌∷◌,
  ◌++◌, ◌==◌, if◌then◌else◌, length, bytes, has_prefix, All, Bool-cases, arith, length-append,
}
use mathlib.Core.List.{append_assoc}
use mathlib.Core.Option
use sokratos.Routines.{contains}
use sokratos.Routines.Args.Moves.{IsMoved, apply_offset-IsMoved}
use sokratos.Routines.Args.{
  Calendar, Keyword, today, tomorrow, yesterday, now, TimeUnit, minutes, hours, days, weeks, Offset,
  cut_prefix, is_digit, span_digits, unit_of, take_unit, take_end, take_keyword, match_end,
  match_template, base_time, apply_offset, expand_from, expand_string_at, expand_string,
}

abbrev pub keyword_text : Keyword → List ℕ
keyword_text today = bytes "today"
keyword_text tomorrow = bytes "tomorrow"
keyword_text yesterday = bytes "yesterday"
keyword_text now = bytes "now"

abbrev pub unit_text : TimeUnit → ℕ
unit_text minutes = b'm'
unit_text hours = b'h'
unit_text days = b'd'
unit_text weeks = b'w'

abbrev pub offset_text : Option Offset → List ℕ
offset_text none = []
offset_text (some o) =
    (if o.is_negative then b'-' else b'+') ∷ o.first_digit ∷ (o.digits ++ unit_text o.unit ∷ [])

-- How a template is written.
abbrev pub template_text : Keyword → Option Offset → List ℕ
template_text keyword offset =
    bytes "{{" ++ (keyword_text keyword ++ (offset_text offset ++ bytes "}}"))

abbrev pub HasDigits : Option Offset → Type 0
HasDigits none = Unit
HasDigits (some o) = All (λ c. is_digit c ≡ true) (o.first_digit ∷ o.digits)

cut_prefix-append : (p s : List ℕ) → cut_prefix p (p ++ s) ≡ some s
unfolding cut_prefix
cut_prefix-append [] s = refl
cut_prefix-append (c ∷ p) s =
    let same : (c == c) ≡ true = ground arith in rw same (cut_prefix-append p s)

cut_prefix-none : (p s : List ℕ) → has_prefix s p ≡ false → cut_prefix p s ≡ none
unfolding cut_prefix
cut_prefix-none [] s h = absurd (cc h)
cut_prefix-none (c ∷ p) [] h = refl
cut_prefix-none (c ∷ p) (d ∷ s) h = elim (Bool-cases (d == c)) [
  | inl e ↦ rw e (cut_prefix-none p s (rw e at h))
  | inr e ↦ rw e refl
]

take_keyword-keyword_text :
    (k : Keyword) (s : List ℕ) → take_keyword (keyword_text k ++ s) ≡ some (k, s)
unfolding take_keyword cut_prefix
take_keyword-keyword_text today s = refl
take_keyword-keyword_text tomorrow s = refl
take_keyword-keyword_text yesterday s = refl
take_keyword-keyword_text now s = refl

span_digits-append :
    (ds : List ℕ) (c : ℕ) (s : List ℕ)
    → All (λ d. is_digit d ≡ true) ds
    → is_digit c ≡ false
    → span_digits (ds ++ c ∷ s) ≡ (ds, c ∷ s)
unfolding span_digits
span_digits-append [] c s h n = rw n refl
span_digits-append (d ∷ ds) c s h n = rw (h.0, span_digits-append ds c s h.1 n) refl

unit_lem : (u : TimeUnit) → (is_digit (unit_text u) ≡ false) × (unit_of (unit_text u) ≡ some u)
unit_lem minutes = (refl, refl)
unit_lem hours = (refl, refl)
unit_lem days = (refl, refl)
unit_lem weeks = (refl, refl)

-- `take_end` on a sign.
take_signed :
    (negated : Bool) (o : Offset) (digits s : List ℕ)
    → take_unit negated (span_digits digits) ≡ some (o, bytes "}}" ++ s)
    → take_end ((if negated then b'-' else b'+') ∷ digits) ≡ some (some o, s)
unfolding take_end cut_prefix
take_signed true o digits s e = rw e refl
take_signed false o digits s e = rw e refl

take_unit-digits :
    (o : Offset) (s : List ℕ)
    → All (λ c. is_digit c ≡ true) (o.first_digit ∷ o.digits)
    → take_unit o.is_negative (span_digits (o.first_digit ∷ (o.digits ++ unit_text o.unit ∷ s)))
      ≡ some (o, s)
unfolding take_unit
take_unit-digits o s h =
    rw
      (
        take_unit,
        span_digits-append (o.first_digit ∷ o.digits) (unit_text o.unit) s h (unit_lem o.unit).0,
        (unit_lem o.unit).1,
      )
      refl

take_end-offset_text :
    (o : Option Offset) (s : List ℕ)
    → HasDigits o
    → take_end (offset_text o ++ (bytes "}}" ++ s)) ≡ some (o, s)
unfolding take_end cut_prefix
take_end-offset_text none s h = refl
take_end-offset_text (some o) s h =
    take_signed o.is_negative o
      (o.first_digit ∷ ((o.digits ++ unit_text o.unit ∷ []) ++ (bytes "}}" ++ s))) s
      (ap (λ ds. take_unit o.is_negative (span_digits (o.first_digit ∷ ds)))
          (append_assoc o.digits (unit_text o.unit ∷ []) (bytes "}}" ++ s))
        ∙ take_unit-digits o (bytes "}}" ++ s) h)

match_template-template_text :
    (k : Keyword) (o : Option Offset) (s : List ℕ)
    → HasDigits o
    → match_template (template_text k o ++ s) ≡ some (k, o, s)
unfolding match_template cut_prefix match_end
match_template-template_text k o s h =
    let behind : (keyword_text k ++ (offset_text o ++ bytes "}}")) ++ s
        ≡ keyword_text k ++ (offset_text o ++ (bytes "}}" ++ s)) =
      append_assoc (keyword_text k) (offset_text o ++ bytes "}}") s
      ∙ ap (λ r. keyword_text k ++ r) (append_assoc (offset_text o) (bytes "}}") s) in
    ap (λ r. match_end (take_keyword r)) behind
    ∙ (ap match_end (take_keyword-keyword_text k (offset_text o ++ (bytes "}}" ++ s)))
        ∙ ap (Option.map (λ (p : Option Offset × List ℕ). (k, p.0, p.1)))
            (take_end-offset_text o s h))

length_append_sub : (xs ys : List ℕ) → length (xs ++ ys) - length ys ≡ length xs
length_append_sub xs ys = omega (arith, length-append xs ys)

-- No template can start with this byte.
match_template-none : (c : ℕ) (s : List ℕ) → (c == b'{') ≡ false → match_template (c ∷ s) ≡ none
unfolding match_template cut_prefix
match_template-none c s n = rw (match_template, n) refl

module _ {T : Type 0} (calendar : Calendar T) (t : T) where
  expand_from-skipped :
      (xs ys : List ℕ) → expand_from calendar t (length xs) (xs ++ ys) ≡ expand_from calendar t 0 ys
  unfolding expand_from
  expand_from-skipped [] ys = refl
  expand_from-skipped (x ∷ xs) ys = expand_from-skipped xs ys

  expand_from-none :
      (c : ℕ) (s : List ℕ)
      → match_template (c ∷ s) ≡ none
      → expand_from calendar t 0 (c ∷ s) ≡ c ∷ expand_from calendar t 0 s
  unfolding expand_from
  expand_from-none c s e = rw (expand_from, e) refl

  expand_from-some :
      (c : ℕ) (s : List ℕ) (k : Keyword) (o : Option Offset) (rest : List ℕ)
      → match_template (c ∷ s) ≡ some (k, o, rest)
      → expand_from calendar t 0 (c ∷ s)
        ≡ calendar.format (apply_offset calendar (base_time calendar k t) o)
          ++ expand_from calendar t (length s - length rest) s
  unfolding expand_from
  expand_from-some c s k o rest e = rw (expand_from, e) refl

  expand_from-before :
      (before s : List ℕ)
      → All (λ c. (c == b'{') ≡ false) before
      → expand_from calendar t 0 (before ++ s) ≡ before ++ expand_from calendar t 0 s
  expand_from-before [] s h = refl
  expand_from-before (c ∷ before) s h =
      expand_from-none c (before ++ s) (match_template-none c (before ++ s) h.0)
      ∙ ap (◌∷◌ c) (expand_from-before before s h.1)

  expand_from-template :
      (k : Keyword) (o : Option Offset) (s : List ℕ)
      → HasDigits o
      → expand_from calendar t 0 (template_text k o ++ s)
        ≡ calendar.format (apply_offset calendar (base_time calendar k t) o)
          ++ expand_from calendar t 0 s
  expand_from-template k o s h =
      let tail = b'{' ∷ (keyword_text k ++ (offset_text o ++ bytes "}}")) in
      expand_from-some b'{' (tail ++ s) k o s (match_template-template_text k o s h)
      ∙ ap (λ r. calendar.format (apply_offset calendar (base_time calendar k t) o) ++ r)
          (ap (λ n. expand_from calendar t n (tail ++ s)) (length_append_sub tail s)
            ∙ expand_from-skipped tail s)

  -- Of a text without an opening brace, a template and a rest, the first part is kept, the template
  -- becomes the keyword's time after its offset, and the rest is expanded in the same way. An offset
  -- of 2 ^ 63 or more is left out. Any other moves the time by its number times its unit, back where
  -- the sign is a minus: the 64-bit word added to it is that product, or what makes it 0 with it.
  pub expand_string_at-template_text :
      (before : List ℕ) (k : Keyword) (o : Option Offset) (s : List ℕ)
      → All (λ c. (c == b'{') ≡ false) before
      → HasDigits o
      → (t' : T) × IsMoved calendar o (base_time calendar k t) t'
        × (expand_string_at calendar t (before ++ (template_text k o ++ s))
            ≡ before ++ (calendar.format t' ++ expand_string_at calendar t s))
  unfolding expand_string_at
  expand_string_at-template_text before k o s h d = (
    apply_offset calendar (base_time calendar k t) o,
    apply_offset-IsMoved calendar (base_time calendar k t) o,
    expand_from-before before (template_text k o ++ s) h
        ∙ ap (λ r. before ++ r) (expand_from-template k o s d),
  )

  expand_from-contains :
      (s : List ℕ) → contains s (bytes "{{") ≡ false → expand_from calendar t 0 s ≡ s
  unfolding contains expand_from
  expand_from-contains [] h = refl
  expand_from-contains (c ∷ s) h = elim (Bool-cases (has_prefix (c ∷ s) (bytes "{{"))) [
    | inl e ↦ absurd (cc (rw e at h))
    | inr e ↦
        expand_from-none c s (rw (match_template, cut_prefix-none (bytes "{{") (c ∷ s) e) refl)
        ∙ ap (◌∷◌ c) (expand_from-contains s (rw e at h))
  ]

  -- That `ExpandString` returns a text without "{{" at once makes no difference: it is always what
  -- `expandString` makes of the text.
  pub expand_string-expand_string_at :
      (s : List ℕ) → expand_string calendar t s ≡ expand_string_at calendar t s
  unfolding expand_string expand_string_at
  expand_string-expand_string_at s = elim (Bool-cases (contains s (bytes "{{"))) [
    | inl e ↦ rw e refl
    | inr e ↦ rw e (sym (expand_from-contains s e))
  ]
