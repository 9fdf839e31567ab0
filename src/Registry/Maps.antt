-- ===== src/Registry/Maps.antt =====
-- Association lists: what the maps of the program look up after a change.
use sokratos.Base.{
  ℕ, ◌≡◌, inl, inr, refl, sym, subst, true, false, Option, none, some, List, [], ◌∷◌, bytes_eq,
  bytes_eq_refl, bytes_eq_sound, Bool-cases,
}
use sokratos.Registry.{lookup, remove, assign}

pub lookup_removed {ℓ} :
    {A : Type ℓ} (m : List (List ℕ × A)) (name : List ℕ) → lookup (remove m name) name ≡ none
unfolding lookup remove
lookup_removed [] name = refl
lookup_removed ((k, v) ∷ m) name = elim (Bool-cases (bytes_eq k name)) [
  | inl e ↦ rw e (lookup_removed m name)
  | inr e ↦ rw (e, e) (lookup_removed m name)
]

pub lookup_kept {ℓ} :
    {A : Type ℓ} (m : List (List ℕ × A)) (name other : List ℕ)
    → bytes_eq name other ≡ false
    → lookup (remove m name) other ≡ lookup m other
unfolding lookup remove
lookup_kept [] name other n = refl
lookup_kept ((k, v) ∷ m) name other n = elim (Bool-cases (bytes_eq k name)) [
  | inl e ↦
      rw
        (
          e,
          subst (λ x. bytes_eq x other ≡ false) (sym (bytes_eq_sound k name e)) n,
          lookup_kept m name other n,
        )
        refl
  | inr e ↦ rw (e, lookup_kept m name other n) refl
]

pub lookup_assigned {ℓ} :
    {A : Type ℓ} (m : List (List ℕ × A)) (name : List ℕ) (v : A)
    → lookup (assign m name v) name ≡ some v
unfolding lookup assign
lookup_assigned m name v = rw (bytes_eq_refl name) refl

pub lookup_beside {ℓ} :
    {A : Type ℓ} (m : List (List ℕ × A)) (name other : List ℕ) (v : A)
    → bytes_eq name other ≡ false
    → lookup (assign m name v) other ≡ lookup m other
unfolding lookup assign
lookup_beside m name other v n = rw (n) (lookup_kept m name other n)

pub lookup-assign {ℓ} :
    {A : Type ℓ} (m : List (List ℕ × A)) (name key : List ℕ) (v : A)
    → bytes_eq name key ≡ true
    → lookup (assign m name v) key ≡ some v
lookup-assign m name key v e =
    subst (λ k. lookup (assign m name v) k ≡ some v) (bytes_eq_sound name key e)
      (lookup_assigned m name v)

-- The keys of a map, which differ.
abbrev pub HasDistinctKeys {ℓ} : {A : Type ℓ} → List (List ℕ × A) → Type ℓ
HasDistinctKeys [] = Unit
HasDistinctKeys ((k, v) ∷ m) = (lookup m k ≡ none) × HasDistinctKeys m

-- The value of the updates, and without one the current value.
abbrev pub overwritten {ℓ} : {A : Type ℓ} → Option A → Option A → Option A
overwritten none current = current
overwritten (some v) current = some v

remove-none {ℓ} :
    {A : Type ℓ} (m : List (List ℕ × A)) (name other : List ℕ)
    → lookup m other ≡ none
    → lookup (remove m name) other ≡ none
remove-none m name other absent = elim (Bool-cases (bytes_eq name other)) [
  | inl e ↦
      subst (λ x. lookup (remove m name) x ≡ none) (bytes_eq_sound name other e)
        (lookup_removed m name)
  | inr e ↦ rw (lookup_kept m name other e) absent
]

pub remove-HasDistinctKeys {ℓ} :
    {A : Type ℓ} (m : List (List ℕ × A)) (name : List ℕ)
    → HasDistinctKeys m
    → HasDistinctKeys (remove m name)
unfolding remove
remove-HasDistinctKeys [] name d = tt
remove-HasDistinctKeys ((k, v) ∷ m) name d = elim (Bool-cases (bytes_eq k name)) [
  | inl e ↦ rw e (remove-HasDistinctKeys m name d.1)
  | inr e ↦ rw e (remove-none m name k d.0, remove-HasDistinctKeys m name d.1)
]

pub assign-HasDistinctKeys {ℓ} :
    {A : Type ℓ} (m : List (List ℕ × A)) (name : List ℕ) (v : A)
    → HasDistinctKeys m
    → HasDistinctKeys (assign m name v)
unfolding assign
assign-HasDistinctKeys m name v d = (lookup_removed m name, remove-HasDistinctKeys m name d)
