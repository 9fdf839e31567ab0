-- ===== src/Schedule/Format.antt =====
-- The texts of routines/schedule.go and timefmt/timefmt.go, written and read back.
use sokratos.Base.{
  ℕ, ◌+◌, ◌*◌, ◌/◌, ◌%◌, ◌<◌, ◌≡◌, ◌≢◌, ◌↔◌, ◌⊎◌, refl, ap, true, false, Option, none, some, List,
  [], ◌∷◌, ◌++◌, is_empty, All, arith,
}
use sokratos.Schedule.{
  digit, parse_schedule, join, split, non_empty, normalize_schedule, texts, parse_schedules, due_at,
  is_schedule_due,
}

abbrev pub print_schedule : ℕ → ℕ → List ℕ
print_schedule h m = (48 + h / 10) ∷ (48 + h % 10) ∷ b':' ∷ (48 + m / 10) ∷ (48 + m % 10) ∷ []

digits : (n : ℕ) → n < 100 → digit (48 + n / 10) * 10 + digit (48 + n % 10) ≡ n
digits n h = omega arith

-- Every time of the day, printed as HH:MM, is read back.
parse_schedule-print_schedule :
    (h m : ℕ) → h < 24 → m < 60 → parse_schedule (print_schedule h m) ≡ some (h, m)
unfolding parse_schedule
parse_schedule-print_schedule h m p q =
    rw (digits h (omega arith), digits m (omega arith)) (ground arith)

-- An entry without a comma, which the trimming leaves as it is.
module _ (trim_space : List ℕ → List ℕ) where
  abbrev pub IsEntry : List ℕ → Type 0
  IsEntry s = All (λ c. c ≢ b',') s × (trim_space s ≡ s) × (is_empty s ≡ false)

split_plain : (s : List ℕ) → All (λ c. c ≢ b',') s → split s ≡ s ∷ []
unfolding split
split_plain [] p = refl
split_plain (c ∷ s) (n, p) = rw (split_plain s p) (ground arith)

split_comma : (s rest : List ℕ) → All (λ c. c ≢ b',') s → split (s ++ b',' ∷ rest) ≡ s ∷ split rest
unfolding split
split_comma [] rest p = refl
split_comma (c ∷ s) rest (n, p) = rw (split_comma s rest p) (ground arith)

join_full :
    (s : List ℕ) (parts : List (List ℕ)) → is_empty s ≡ false → is_empty (join (s ∷ parts)) ≡ false
unfolding join
join_full [] parts e = cc e
join_full (c ∷ s) [] e = refl
join_full (c ∷ s) (t ∷ parts) e = refl

module _ (trim_space : List ℕ → List ℕ) where
  non_empty-split-join :
      (s : List ℕ) (parts : List (List ℕ))
      → All (IsEntry trim_space) (s ∷ parts)
      → non_empty trim_space (split (join (s ∷ parts))) ≡ s ∷ parts
  unfolding non_empty join
  non_empty-split-join s [] ((p, t, e), _) = rw (split_plain s p, t, e) refl
  non_empty-split-join s (s' ∷ parts) ((p, t, e), q) =
      rw (split_comma s (join (s' ∷ parts)) p, t, e)
        (ap (λ x. s ∷ x) (non_empty-split-join s' parts q))

  -- A list of entries that have no comma, are trimmed and are not empty comes back from its text in
  -- the database.
  parse_schedules-normalize_schedule :
      (parts : List (List ℕ))
      → All (IsEntry trim_space) parts
      → parse_schedules trim_space (normalize_schedule (texts parts)) ≡ parts
  unfolding parse_schedules normalize_schedule
  parse_schedules-normalize_schedule [] p = refl
  parse_schedules-normalize_schedule (s ∷ parts) p =
      rw (join_full s parts p.0.2, non_empty-split-join s parts p) refl

-- A time of today between the last run and now.
abbrev pub IsDue : (ℕ → ℕ → ℕ) → ℕ → ℕ → Option (ℕ × ℕ) → Type 0
IsDue today now last_executed none = ⊥
IsDue today now last_executed (some (h, m)) = (last_executed < today h m) × (today h m < now)

abbrev pub HasDue : (ℕ → ℕ → ℕ) → ℕ → ℕ → List (List ℕ) → Type 0
HasDue today now last_executed [] = ⊥
HasDue today now last_executed (s ∷ rest) =
    IsDue today now last_executed (parse_schedule s) ⊎ HasDue today now last_executed rest

module _ (today : ℕ → ℕ → ℕ) (now last_executed : ℕ) where
  due_at_iff :
      (o : Option (ℕ × ℕ))
      → (due_at today now last_executed o ≡ true) ↔ IsDue today now last_executed o
  due_at_iff none = ground arith
  due_at_iff (some (h, m)) = ground arith

  -- A routine is due exactly when one of its entries is a time of the day that has passed today and
  -- that its last run came before; an entry that is no time is skipped.
  is_schedule_due_iff :
      (schedules : List (List ℕ))
      → (is_schedule_due today now last_executed schedules ≡ true)
        ↔ HasDue today now last_executed schedules
  unfolding is_schedule_due
  is_schedule_due_iff [] = ground arith
  is_schedule_due_iff (s ∷ rest) =
      ground (arith, due_at_iff (parse_schedule s), is_schedule_due_iff rest)
