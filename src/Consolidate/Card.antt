-- ===== src/Consolidate/Card.antt =====
-- The identity card that `mergeProfileJSON` of pipelines/consolidate_profile.go leaves.
use sokratos.Base.{
  ℕ, ◌-◌, ◌≤◌, ◌≡◌, inl, inr, refl, ap, sym, subst, ◌∙◌, Bool, true, false, not, ◌&&◌, ◌||◌, none,
  List, [], ◌∷◌, ltb, length, drop, bytes_eq, bytes_eq_sound, All, Bool-cases, arith, length-drop,
}
use sokratos.Registry.{lookup, remove, assign}
use sokratos.Registry.Maps.{
  lookup_assigned, lookup_beside, lookup-assign, HasDistinctKeys, overwritten,
}
use sokratos.Consolidate.Profile.{
  ProfileValue, name_key, people_key, consolidated_key, max_people, has_key, objects_of,
  to_object_slice, object_items, is_card_key, card_only, extra_entries, cap_people,
  validate_profile, apply_updates, merge_profile,
}

has_key-assign {ℓ} :
    {A : Type ℓ} (m : List (List ℕ × A)) (key name : List ℕ) (v : A)
    → has_key m key ≡ true
    → has_key (assign m name v) key ≡ true
unfolding has_key
has_key-assign m key name v held = elim (Bool-cases (bytes_eq name key)) [
  | inl e ↦
      subst (λ k. has_key (assign m name v) k ≡ true) (bytes_eq_sound name key e)
        (rw (has_key, lookup_assigned m name v) refl)
  | inr e ↦ rw (has_key, lookup_beside m name key v e) held
]

lookup-card_only {ℓ} :
    {A : Type ℓ} (m : List (List ℕ × A)) (key : List ℕ)
    → is_card_key key ≡ true
    → lookup (card_only m) key ≡ lookup m key
unfolding card_only lookup
lookup-card_only [] key c = refl
lookup-card_only ((k, v) ∷ m) key c = elim (Bool-cases (bytes_eq k key)) [
  | inl e ↦ rw (subst (λ x. is_card_key x ≡ true) (sym (bytes_eq_sound k key e)) c, e) refl
  | inr e ↦ elim (Bool-cases (is_card_key k)) [
    | inl d ↦ rw (d, e, lookup-card_only m key c) refl
    | inr d ↦ rw (d, e, lookup-card_only m key c) refl
  ]
]

has_key-cap_people :
    {J : Type 0} (m : List (List ℕ × ProfileValue J)) (key : List ℕ)
    → has_key m key ≡ true
    → has_key (cap_people m) key ≡ true
unfolding cap_people
has_key-cap_people m key held =
    elim (Bool-cases (ltb max_people (length (to_object_slice (lookup m people_key))))) [
      | inl e ↦ rw e (has_key-assign m key people_key _ held)
      | inr e ↦ rw e held
    ]

-- Every key is one of the card's.
abbrev HasCardKeys {ℓ} : {A : Type ℓ} → List (List ℕ × A) → Type 0
HasCardKeys m = All (λ e. is_card_key (e.0) ≡ true) m

card_only-HasCardKeys {ℓ} : {A : Type ℓ} (m : List (List ℕ × A)) → HasCardKeys (card_only m)
unfolding card_only
card_only-HasCardKeys [] = tt
card_only-HasCardKeys ((k, v) ∷ m) = elim (Bool-cases (is_card_key k)) [
  | inl d ↦ rw d (d, card_only-HasCardKeys m)
  | inr d ↦ rw d (card_only-HasCardKeys m)
]

remove-HasCardKeys {ℓ} :
    {A : Type ℓ} (m : List (List ℕ × A)) (key : List ℕ) → HasCardKeys m → HasCardKeys (remove m key)
unfolding remove
remove-HasCardKeys [] key h = tt
remove-HasCardKeys ((k, v) ∷ m) key h = elim (Bool-cases (bytes_eq k key)) [
  | inl d ↦ rw d (remove-HasCardKeys m key h.1)
  | inr d ↦ rw d (h.0, remove-HasCardKeys m key h.1)
]

objects_of-object_items :
    {J : Type 0} (objects : List (List (List ℕ × J))) → objects_of (object_items objects) ≡ objects
unfolding objects_of object_items
objects_of-object_items [] = refl
objects_of-object_items (o ∷ objects) = ap (◌∷◌ o) (objects_of-object_items objects)

abbrev pub people : {J : Type 0} → List (List ℕ × ProfileValue J) → List (List (List ℕ × J))
people m = to_object_slice (lookup m people_key)

cap_people-bounds :
    {J : Type 0} (m : List (List ℕ × ProfileValue J))
    → HasCardKeys m
    → HasCardKeys (cap_people m) × (length (people (cap_people m)) ≤ max_people)
unfolding cap_people assign to_object_slice
cap_people-bounds m h = elim (Bool-cases (ltb max_people (length (people m)))) [
  | inl e ↦ rw e (
    (refl, remove-HasCardKeys m people_key h),
    rw
        (
          objects_of-object_items (drop (length (people m) - max_people) (people m)),
          length-drop (length (people m) - max_people) (people m),
        )
        (ground arith),
  )
  | inr e ↦ rw e (h, ground arith)
]

has_key-apply_updates :
    {J : Type 0} (key_of : J → List ℕ) (current updates : List (List ℕ × ProfileValue J))
    (key : List ℕ)
    → has_key current key ≡ true
    → has_key (apply_updates key_of current updates) key ≡ true
unfolding apply_updates
has_key-apply_updates key_of current [] key held = held
has_key-apply_updates key_of current ((k, v) ∷ updates) key held =
    has_key-apply_updates key_of (assign current k _) updates key
      (has_key-assign current key k _ held)

has_key-card_only {ℓ} :
    {A : Type ℓ} (m : List (List ℕ × A)) (key : List ℕ)
    → is_card_key key ≡ true
    → has_key m key ≡ true
    → has_key (card_only m) key ≡ true
unfolding has_key
has_key-card_only m key c held = rw (has_key, lookup-card_only m key c) held

lookup-apply_updates :
    {J : Type 0} (key_of : J → List ℕ) (current updates : List (List ℕ × ProfileValue J))
    (key : List ℕ)
    → HasDistinctKeys updates
    → bytes_eq key people_key ≡ false
    → lookup (apply_updates key_of current updates) key
      ≡ overwritten (lookup updates key) (lookup current key)
unfolding apply_updates lookup
lookup-apply_updates key_of current [] key d n = refl
lookup-apply_updates key_of current ((k, v) ∷ updates) key d n =
    elim (Bool-cases (bytes_eq k key)) [
      | inl e ↦ rw e (
          lookup-apply_updates key_of (assign current k _) updates key d.1 n
          ∙ (rw
              (
                subst (λ x. lookup updates x ≡ none) (bytes_eq_sound k key e) d.0,
                lookup-assign current k key _ e,
                subst (λ x. bytes_eq x people_key ≡ false) (sym (bytes_eq_sound k key e)) n,
              )
              refl))
      | inr e ↦ rw e (
          lookup-apply_updates key_of (assign current k _) updates key d.1 n
          ∙ ap (overwritten (lookup updates key)) (lookup_beside current k key _ e))
    ]

lookup-cap_people :
    {J : Type 0} (m : List (List ℕ × ProfileValue J)) (key : List ℕ)
    → bytes_eq people_key key ≡ false
    → lookup (cap_people m) key ≡ lookup m key
unfolding cap_people
lookup-cap_people m key n = elim (Bool-cases (ltb max_people (length (people m)))) [
  | inl e ↦ rw e (lookup_beside m people_key key _ n)
  | inr e ↦ rw e refl
]

extra_entries-HasCardKeys {ℓ} :
    {A : Type ℓ} (m : List (List ℕ × A)) → HasCardKeys m → extra_entries m ≡ []
unfolding extra_entries
extra_entries-HasCardKeys [] h = refl
extra_entries-HasCardKeys ((k, v) ∷ m) h = rw (h.0) (extra_entries-HasCardKeys m h.1)

abbrev pub IsCard : {J : Type 0} → List (List ℕ × ProfileValue J) → Type 0
IsCard m = HasCardKeys m × (length (people m) ≤ max_people)

and_true : {a b : Bool} → a ≡ true → b ≡ true → (a && b) ≡ true
and_true p q = rw (p, q) refl

-- For updates whose keys differ, the merged profile passes `validate_profile` against the current
-- one, so that check never fails after a merge; each of its keys is a key of the identity card, and
-- it has at most 15 important people; the second loop of `marshal_profile_ordered` has nothing to
-- print, so that the printed profile has its keys in their canonical order; its name and its time of consolidation are those of the
-- updates, and where the updates have none, the current ones.
pub merge_profile-IsCard :
    {J : Type 0} (key_of : J → List ℕ) (current updates : List (List ℕ × ProfileValue J))
    → HasDistinctKeys updates
    → (validate_profile (merge_profile key_of current updates) current ≡ true)
      × IsCard (merge_profile key_of current updates)
      × (extra_entries (merge_profile key_of current updates) ≡ [])
      × (lookup (merge_profile key_of current updates) name_key
          ≡ overwritten (lookup updates name_key) (lookup current name_key))
      × (lookup (merge_profile key_of current updates) consolidated_key
          ≡ overwritten (lookup updates consolidated_key) (lookup current consolidated_key))
unfolding validate_profile merge_profile
merge_profile-IsCard {J = J} key_of current updates distinct = (
  and_true (kept name_key refl) (kept people_key refl),
  card,
  extra_entries-HasCardKeys (cap_people (card_only applied)) card.0,
  scalar name_key refl refl refl,
  scalar consolidated_key refl refl refl,
)
  where
    applied : List (List ℕ × ProfileValue J)
    applied = apply_updates key_of current updates

    card : IsCard (cap_people (card_only applied))
    card = cap_people-bounds (card_only applied) (card_only-HasCardKeys applied)

    kept :
        (key : List ℕ)
        → is_card_key key ≡ true
        → (not (has_key current key) || has_key (cap_people (card_only applied)) key) ≡ true
    kept key c = elim (Bool-cases (has_key current key)) [
      | inl e ↦
          rw
            (
              e,
              has_key-cap_people (card_only applied) key (
                  has_key-card_only applied key c
                    (has_key-apply_updates key_of current updates key e)),
            )
            refl
      | inr e ↦ rw e refl
    ]

    scalar :
        (key : List ℕ)
        → is_card_key key ≡ true
        → bytes_eq people_key key ≡ false
        → bytes_eq key people_key ≡ false
        → lookup (cap_people (card_only applied)) key
          ≡ overwritten (lookup updates key) (lookup current key)
    scalar key c n o =
        lookup-cap_people (card_only applied) key n
        ∙ (lookup-card_only applied key c
            ∙ lookup-apply_updates key_of current updates key distinct o)
