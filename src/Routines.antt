-- ===== src/Routines.antt =====
-- routines/sync.go and routines/routines.go: the table `routines`, which a TOML file fills.
-- There is a database, and its rows can be read. Texts are bytes and times are nanoseconds. The table
-- is an association list of names and rows, and so is a file that was read, where the list gives the
-- order that Go iterates over the map. What the
-- database does with a statement is the argument `fails`; the encoding of `action_args` and
-- `strings.TrimSpace` are arguments, and the checks of the schedule are those of routines/schedule.go.
pub mod Sync
pub mod Args
use sokratos.Base.{
  ℕ, zero, suc, ◌+◌, ◌-◌, ◌*◌, ◌/◌, ◌%◌, ◌^◌, ◌≤◌, ◌<◌, ◌≡◌, ◌≢◌, ◌↔◌, ◌⊎◌, inl, inr, refl, ap, sym,
  subst, ◌∙◌, Bool, true, false, not, ◌&&◌, ◌||◌, Option, none, some, List, [], ◌∷◌, ◌++◌, ltb, leb,
  ◌==◌, if◌then◌else◌, length, take, drop, get_elem?, is_empty, bytes, bytes_eq, bytes_eq_refl,
  bytes_eq_sound, ℤ, pos, negsuc, positive_or, Elem, All, Bool-cases, Option-cases, arith,
  length-append, has_prefix, length-snoc, length-take-le, length-drop,
}
use sokratos.Registry.{lookup, remove}
use sokratos.Schedule.{
  Value, normalize_schedule, parse_schedules, validate_schedules, is_schedule_due,
}

-- The arguments of the actions stand as they are encoded.
pub record Entry : Type 0 where
  pub interval : List ℕ
  pub schedule : Value
  pub action : List ℕ
  pub actions : List (List ℕ)
  pub action_args : Option (List ℕ)
  pub goal : List ℕ
  pub silent_if_empty : Bool
  pub instruction : List ℕ

-- The columns that the statement of `upsertEntry` sets.
pub record Row : Type 0 where
  pub interval_duration : Option (List ℕ)
  pub instruction : List ℕ
  pub action : Option (List ℕ)
  pub goal : Option (List ℕ)
  pub silent_if_empty : Bool
  pub schedule : Option (List ℕ)
  pub actions : List (List ℕ)
  pub action_args : Option (List ℕ)

abbrev pub RoutineTable : Type 0
RoutineTable = List (List ℕ × Row)

unfoldable pub nil_if_empty : List ℕ → Option (List ℕ)
nil_if_empty s = if is_empty s then none else some s

-- `strings.Contains(s, sub)`.
unfoldable pub contains : List ℕ → List ℕ → Bool
contains [] sub = is_empty sub
contains (c ∷ s) sub = has_prefix (c ∷ s) sub || contains s sub

abbrev pub longer_with : List ℕ → List ℕ → Bool
longer_with result prefix = ltb (length prefix) (length result) && has_prefix result prefix

unfoldable pub is_empty_result : List ℕ → Bool
unfolding contains
is_empty_result result =
    is_empty result
    || (longer_with result (bytes "No ")
        || (longer_with result (bytes "no ")
            || (longer_with result (bytes "error")
                || (longer_with result (bytes "Error")
                    || (ltb 10 (length result)
                        && (has_prefix result (123 ∷ [])
                            && contains result (34 ∷ bytes "count" ++ (34 ∷ bytes ":0"))))))))

-- The statement sets every column of the row, new or not.
unfoldable pub row_of : Entry → Row
unfolding nil_if_empty normalize_schedule
row_of r = record {
  interval_duration = nil_if_empty r.interval;
  instruction =
      if (not (is_empty r.action) || not (is_empty r.actions)) && is_empty r.instruction
      then r.goal
      else r.instruction;
  action = nil_if_empty r.action;
  goal = nil_if_empty r.goal;
  silent_if_empty = r.silent_if_empty;
  schedule = nil_if_empty (normalize_schedule r.schedule);
  actions = r.actions;
  action_args = r.action_args;
}

-- `INSERT … ON CONFLICT (name) DO UPDATE …`.
unfoldable pub put : RoutineTable → List ℕ → Row → RoutineTable
put [] name row = (name, row) ∷ []
put ((k, v) ∷ table) name row =
    let rest = put table name row in if bytes_eq k name then (k, row) ∷ table else (k, v) ∷ rest

-- Which statements the database refuses: an upsert or a deletion of this name, or the query.
pub record Failures : Type 0 where
  pub upsert_fails : List ℕ → Bool
  pub delete_fails : List ℕ → Bool
  pub query_fails : Bool

unfoldable pub has_name : List (List ℕ × Entry) → List ℕ → Bool
unfolding lookup
has_name file name = elim (lookup file name) [ none ↦ false | some r ↦ true ]

-- `Delete`, and each deletion of the sync.
unfoldable pub delete : RoutineTable → List ℕ → RoutineTable
unfolding remove
delete table name = remove table name

unfoldable pub delete_stale :
    Failures → List (List ℕ × Entry) → RoutineTable → RoutineTable × List (List ℕ)
unfolding has_name
delete_stale db file [] = ([], [])
delete_stale db file ((k, v) ∷ table) =
    let rest = delete_stale db file table in
    if has_name file k || db.delete_fails k then ((k, v) ∷ rest.0, rest.1) else (rest.0, k ∷ rest.1)

module _ (trim_space : List ℕ → List ℕ) where
  -- `validateEntry` returns no error.
  unfoldable pub validate_entry : Entry → Bool
  unfolding normalize_schedule validate_schedules
  validate_entry r =
      let schedule = normalize_schedule r.schedule in
      if is_empty r.interval && is_empty schedule
      then false
      else if not (is_empty schedule)
          && elim (validate_schedules trim_space r.schedule) [ none ↦ false | some e ↦ true ]
      then false
      else not (is_empty r.action && (is_empty r.actions && is_empty r.instruction))

  -- `Upsert`: whether it worked, and the table.
  unfoldable pub upsert : Failures → RoutineTable → List ℕ → Entry → RoutineTable × Bool
  unfolding validate_entry row_of put
  upsert db table name r =
      if not (validate_entry r) || db.upsert_fails name
      then (table, false)
      else (put table name (row_of r), true)

  -- The first loop of `SyncFromFile`: the names it upserted, and the table.
  unfoldable pub upsert_all :
      Failures → RoutineTable → List (List ℕ × Entry) → RoutineTable × List (List ℕ)
  unfolding upsert
  upsert_all db table [] = (table, [])
  upsert_all db table ((name, r) ∷ file) =
      let next = upsert db table name r in
      let rest = upsert_all db next.0 file in if next.1 then (rest.0, name ∷ rest.1) else rest

  -- `SyncFromFile`, without a file that can be read or with one: the table, the names that are
  -- updated and those that are deleted. The names that are added are always none.
  unfoldable pub sync_from_file :
      Failures
      → RoutineTable
      → Option (List (List ℕ × Entry))
      → RoutineTable × List (List ℕ) × List (List ℕ)
  unfolding upsert_all delete_stale
  sync_from_file db table none = (table, [], [])
  sync_from_file db table (some file) =
      let upserted = upsert_all db table file in
      if db.query_fails
      then (upserted.0, upserted.1, [])
      else let kept = delete_stale db file upserted.0 in (kept.0, upserted.1, kept.1)

  -- `SyncIfChanged`: the time that was seen last, where none is the zero time.
  unfoldable pub sync_if_changed :
      Failures
      → RoutineTable
      → Option ℕ
      → Option ℕ
      → Option (List (List ℕ × Entry))
      → RoutineTable × Option ℕ
  unfolding sync_from_file
  sync_if_changed db table last_mtime none file = (table, last_mtime)
  sync_if_changed db table none (some mtime) file = (table, some mtime)
  sync_if_changed db table (some last) (some mtime) file =
      if not (ltb last mtime)
      then (table, some last)
      else ((sync_from_file db table file).0, some mtime)
