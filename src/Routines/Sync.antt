-- ===== src/Routines/Sync.antt =====
-- What a sync of routines/sync.go makes of the table.
use sokratos.Base.{
  ℕ, ◌≡◌, inl, inr, refl, ap, sym, subst, ◌∙◌, Bool, true, false, not, ◌||◌, Option, none, some,
  List, [], ◌∷◌, if◌then◌else◌, bytes_eq, bytes_eq_refl, bytes_eq_sound, Bool-cases,
}
use sokratos.Registry.{lookup}
use sokratos.Routines.{
  Entry, Row, RoutineTable, row_of, put, Failures, has_name, delete_stale, validate_entry, upsert,
  upsert_all, sync_from_file,
}

-- The names of a file are different, as the keys of a TOML table are.
abbrev pub Distinct : List (List ℕ × Entry) → Type 0
Distinct [] = Unit
Distinct ((name, r) ∷ file) = (lookup file name ≡ none) × Distinct file

lookup-put :
    (table : RoutineTable) (name : List ℕ) (row : Row) → lookup (put table name row) name ≡ some row
unfolding lookup put
lookup-put [] name row = rw (bytes_eq_refl name) refl
lookup-put ((k, v) ∷ table) name row = elim (Bool-cases (bytes_eq k name)) [
  | inl e ↦ rw (e, e) refl
  | inr e ↦ rw (e, e) (lookup-put table name row)
]

lookup-put_other :
    (table : RoutineTable) (name other : List ℕ) (row : Row)
    → bytes_eq name other ≡ false
    → lookup (put table name row) other ≡ lookup table other
unfolding lookup put
lookup-put_other [] name other row n = rw n refl
lookup-put_other ((k, v) ∷ table) name other row n = elim (Bool-cases (bytes_eq k name)) [
  | inl e ↦
      let no = subst (λ x. bytes_eq x other ≡ false) (sym (bytes_eq_sound k name e)) n in
      rw (e, no) refl
  | inr e ↦ rw (e, lookup-put_other table name other row n) refl
]

-- What the deletions leave of the row with this name.
left_of : Bool → Option Row → Option Row
left_of stays old = if stays then old else none

lookup_next :
    (table : RoutineTable) (k name : List ℕ) (v : Row)
    → bytes_eq k name ≡ false
    → lookup ((k, v) ∷ table) name ≡ lookup table name
unfolding lookup
lookup_next table k name v e = rw e refl

abbrev Kept : Failures → List (List ℕ × Entry) → RoutineTable → List ℕ → Type 0
Kept db file table name =
    lookup (delete_stale db file table).0 name
    ≡ left_of (has_name file name || db.delete_fails name) (lookup table name)

Kept-own :
    (db : Failures) (file : List (List ℕ × Entry)) (table : RoutineTable) (k : List ℕ) (v : Row)
    → Kept db file table k
    → bytes_eq k k ≡ true
    → Kept db file ((k, v) ∷ table) k
unfolding lookup delete_stale left_of
Kept-own db file table k v ih same = elim (Bool-cases (has_name file k || db.delete_fails k)) [
  | inl s ↦ rw (s, same) refl
  | inr s ↦ rw s (rw s at ih)
]

Kept-other :
    (db : Failures) (file : List (List ℕ × Entry)) (table : RoutineTable) (k name : List ℕ)
    (v : Row)
    → bytes_eq k name ≡ false
    → Kept db file table name
    → Kept db file ((k, v) ∷ table) name
unfolding lookup delete_stale left_of
Kept-other db file table k name v e ih = elim (Bool-cases (has_name file k || db.delete_fails k)) [
  | inl s ↦ rw (s, e) ih
  | inr s ↦ rw (s, e) ih
]

delete_stale-left_of :
    (db : Failures) (file : List (List ℕ × Entry)) (table : RoutineTable) (name : List ℕ)
    → Kept db file table name
unfolding lookup delete_stale left_of
delete_stale-left_of db file [] name =
    elim (Bool-cases (has_name file name || db.delete_fails name)) [
      | inl e ↦ rw e refl
      | inr e ↦ rw e refl
    ]
delete_stale-left_of db file ((k, v) ∷ table) name = elim (Bool-cases (bytes_eq k name)) [
  | inl e ↦
      subst (Kept db file ((k, v) ∷ table)) (bytes_eq_sound k name e)
        (Kept-own db file table k v (delete_stale-left_of db file table k) (bytes_eq_refl k))
  | inr e ↦ Kept-other db file table k name v e (delete_stale-left_of db file table name)
]

module _ (trim_space : List ℕ → List ℕ) (db : Failures) where
  -- Whether the sync leaves a valid entry's row as it was: its upsert is refused.
  is_refused : List ℕ → Entry → Bool
  is_refused name r = not (validate_entry trim_space r) || db.upsert_fails name

  upserted : List ℕ → Option Entry → Option Row → Option Row
  upserted name none old = old
  upserted name (some r) old = if is_refused name r then old else some (row_of r)

  lookup-upsert :
      (table : RoutineTable) (name : List ℕ) (r : Entry)
      → lookup (upsert trim_space db table name r).0 name
        ≡ upserted name (some r) (lookup table name)
  unfolding upsert upserted is_refused
  lookup-upsert table name r = elim (Bool-cases (is_refused name r)) [
    | inl e ↦ rw e refl
    | inr e ↦ rw e (lookup-put table name (row_of r))
  ]

  lookup-upsert_other :
      (table : RoutineTable) (name other : List ℕ) (r : Entry)
      → bytes_eq name other ≡ false
      → lookup (upsert trim_space db table name r).0 other ≡ lookup table other
  unfolding upsert is_refused
  lookup-upsert_other table name other r n = elim (Bool-cases (is_refused name r)) [
    | inl e ↦ rw (e) refl
    | inr e ↦ rw (e) (lookup-put_other table name other (row_of r) n)
  ]

  upsert_all_step :
      (table : RoutineTable) (name : List ℕ) (r : Entry) (file : List (List ℕ × Entry))
      → (upsert_all trim_space db table ((name, r) ∷ file)).0
        ≡ (upsert_all trim_space db (upsert trim_space db table name r).0 file).0
  unfolding upsert_all
  upsert_all_step table name r file = elim (Bool-cases (upsert trim_space db table name r).1) [
    | inl e ↦ rw (upsert_all, e) refl
    | inr e ↦ rw (upsert_all, e) refl
  ]

  upsert_all-upserted :
      (table : RoutineTable) (file : List (List ℕ × Entry)) (name : List ℕ)
      → Distinct file
      → lookup (upsert_all trim_space db table file).0 name
        ≡ upserted name (lookup file name) (lookup table name)
  unfolding upsert_all lookup upserted
  upsert_all-upserted table [] name d = refl
  upsert_all-upserted table ((k, r) ∷ file) name d =
      let ih = upsert_all-upserted (upsert trim_space db table k r).0 file name d.1 in
      ap (λ t. lookup t name) (upsert_all_step table k r file)
      ∙ (elim (Bool-cases (bytes_eq k name)) [
        | inl e ↦ rw e (
            rw (subst (λ n. lookup file n ≡ none) (bytes_eq_sound k name e) d.0) at ih
            ∙ subst
                (λ n.
                  lookup (upsert trim_space db table k r).0 n
                  ≡ upserted n (some r) (lookup table n))
                (bytes_eq_sound k name e) (lookup-upsert table k r))
        | inr e ↦ rw e (rw (lookup-upsert_other table k name r e) at ih)
      ])

  -- The row that a sync gives a name: its entry's where the file has one that is valid and not
  -- refused, the old one where it has another entry, and none where it has no entry.
  abbrev pub desired : List ℕ → Option Entry → Option Row → Option Row
  desired name none old = if db.delete_fails name then old else none
  desired name (some r) old =
      if not (validate_entry trim_space r) || db.upsert_fails name then old else some (row_of r)

  kept_desired :
      (name : List ℕ) (file : List (List ℕ × Entry)) (o : Option Entry) (old : Option Row)
      → lookup file name ≡ o
      → left_of (has_name file name || db.delete_fails name) (upserted name o old)
        ≡ desired name o old
  unfolding left_of upserted is_refused has_name
  kept_desired name file none old h = rw (has_name, h) refl
  kept_desired name file (some r) old h = rw (has_name, h) refl

  -- The file is the source of truth: after a sync whose query of the names works, the table has for
  -- every name the row that the file and the refused statements call for, which without a refused
  -- statement is the entry's row, the old row of an entry that is not valid, and no row for a name
  -- that the file lacks.
  pub sync_from_file_refines :
      (table : RoutineTable) (file : List (List ℕ × Entry)) (name : List ℕ)
      → Distinct file
      → db.query_fails ≡ false
      → lookup (sync_from_file trim_space db table (some file)).0 name
        ≡ desired name (lookup file name) (lookup table name)
  unfolding sync_from_file
  sync_from_file_refines table file name d q =
      let t = (upsert_all trim_space db table file).0 in
      rw (sync_from_file, q)
        (delete_stale-left_of db file t name
          ∙ (ap (left_of (has_name file name || db.delete_fails name))
                (upsert_all-upserted table file name d)
              ∙ kept_desired name file (lookup file name) (lookup table name) refl))
