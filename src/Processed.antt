-- ===== src/Processed.antt =====
-- pipelines/processed_tracker.go: which emails and events are new.
-- The table is the list of the identifiers that it holds, which its key keeps distinct. Whether the
-- database refuses a statement is an argument.
use sokratos.Base.{
  ℕ, ◌≡◌, inl, inr, refl, ap, sym, subst, ◌∙◌, Bool, true, false, ◌||◌, List, [], ◌∷◌,
  if◌then◌else◌, is_empty, bytes_eq, bytes_eq_refl, bytes_eq_sound, Bool-cases,
}

unfoldable pub has_id : List (List ℕ) → List ℕ → Bool
has_id [] id = false
has_id (x ∷ ids) id = bytes_eq x id || has_id ids id

unfoldable pub unseen : List (List ℕ) → List (List ℕ) → List (List ℕ)
unfolding has_id
unseen existing [] = []
unseen existing (id ∷ ids) =
    let rest = unseen existing ids in if has_id existing id then rest else id ∷ rest

-- All the identifiers where the query fails.
unfoldable pub filter_new : Bool → List (List ℕ) → List (List ℕ) → List (List ℕ)
unfolding unseen
filter_new fails table [] = []
filter_new fails table (id ∷ ids) = if fails then id ∷ ids else unseen table (id ∷ ids)

-- `INSERT … ON CONFLICT DO NOTHING`.
unfoldable pub insert_all : List (List ℕ) → List (List ℕ) → List (List ℕ)
unfolding has_id
insert_all table [] = table
insert_all table (id ∷ ids) = insert_all (if has_id table id then table else id ∷ table) ids

unfoldable pub mark_processed : Bool → List (List ℕ) → List (List ℕ) → List (List ℕ)
unfolding insert_all
mark_processed fails table ids = if is_empty ids || fails then table else insert_all table ids

or_assoc : (a b c : Bool) → ((a || b) || c) ≡ (b || (a || c))
or_assoc true true c = refl
or_assoc true false c = refl
or_assoc false true c = refl
or_assoc false false c = refl

has_id-add :
    (table : List (List ℕ)) (id other : List ℕ)
    → has_id (if has_id table id then table else id ∷ table) other
      ≡ (bytes_eq id other || has_id table other)
unfolding has_id
has_id-add table id other = elim (Bool-cases (has_id table id)) [
  | inl e ↦ elim (Bool-cases (bytes_eq id other)) [
    | inl s ↦ rw (e, s) (subst (λ x. has_id table x ≡ true) (bytes_eq_sound id other s) e)
    | inr s ↦ rw (e, s) refl
  ]
  | inr e ↦ rw e refl
]

has_id-insert_all :
    (table ids : List (List ℕ)) (id : List ℕ)
    → has_id (insert_all table ids) id ≡ (has_id ids id || has_id table id)
unfolding has_id insert_all
has_id-insert_all table [] id = refl
has_id-insert_all table (x ∷ ids) id =
    has_id-insert_all (if has_id table x then table else x ∷ table) ids id
    ∙ (ap (λ b. has_id ids id || b) (has_id-add table x id)
        ∙ sym (or_assoc (bytes_eq x id) (has_id ids id) (has_id table id)))

or_true : (b : Bool) → (b || true) ≡ true
or_true true = refl
or_true false = refl

unseen_both :
    (table ids later : List (List ℕ))
    → unseen (insert_all table ids) later ≡ unseen ids (unseen table later)
unfolding unseen
unseen_both table ids [] = refl
unseen_both table ids (x ∷ later) = elim (Bool-cases (has_id table x)) [
  | inl t ↦
      rw (has_id-insert_all table ids x, t, or_true (has_id ids x)) (unseen_both table ids later)
  | inr t ↦ elim (Bool-cases (has_id ids x)) [
    | inl i ↦ rw (has_id-insert_all table ids x, t, i) (unseen_both table ids later)
    | inr i ↦
        rw (has_id-insert_all table ids x, t, i) (ap (λ r. x ∷ r) (unseen_both table ids later))
  ]
]

none_unseen :
    (existing ids : List (List ℕ))
    → ((id : List ℕ) → has_id ids id ≡ true → has_id existing id ≡ true)
    → unseen existing ids ≡ []
unfolding unseen has_id
none_unseen existing [] h = refl
none_unseen existing (x ∷ ids) h =
    rw (h x (rw (bytes_eq_refl x) refl))
      (none_unseen existing ids (λ id i. h id (rw (i, or_true (bytes_eq x id)) refl)))

filter_new_eq : (table ids : List (List ℕ)) → filter_new false table ids ≡ unseen table ids
unfolding filter_new unseen
filter_new_eq table [] = refl
filter_new_eq table (x ∷ ids) = refl

mark_processed_eq :
    (table ids : List (List ℕ)) → mark_processed false table ids ≡ insert_all table ids
unfolding mark_processed insert_all
mark_processed_eq table [] = refl
mark_processed_eq table (x ∷ ids) = refl

-- Where the database refuses nothing, what is new after a marking is what was new before it and is
-- not among the marked identifiers, in the same order; so none of the marked ones is new again. And
-- where the query is refused, everything is new.
pub filter_new-mark_processed :
    (table ids later : List (List ℕ))
    → (filter_new false (mark_processed false table ids) later
        ≡ unseen ids (filter_new false table later))
      × (filter_new false (mark_processed false table ids) ids ≡ [])
      × (filter_new true table later ≡ later)
unfolding filter_new
filter_new-mark_processed table ids later = (
  rw
      (
        mark_processed_eq table ids,
        filter_new_eq (insert_all table ids) later,
        filter_new_eq table later,
      )
      (unseen_both table ids later),
  rw (mark_processed_eq table ids, filter_new_eq (insert_all table ids) ids)
      (none_unseen (insert_all table ids) ids
        (λ id i. rw (has_id-insert_all table ids id, i) refl)),
  open_filter later,
)
  where
    open_filter : (later : List (List ℕ)) → filter_new true table later ≡ later
    open_filter [] = refl
    open_filter (x ∷ rest) = refl
