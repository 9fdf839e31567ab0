-- ===== src/Plan/Pad.antt =====
-- What the scratchpad of worktracker/plan_execute.go holds.
use sokratos.Base.{
  ℕ, ◌≡◌, ◌⊎◌, inl, inr, refl, ap, sym, subst, Bool, true, false, List, [], ◌∷◌, Bool-cases, arith,
}
use sokratos.Text.{truncate}
use sokratos.Plan.{
  Key, failures, step, same_key, Scratchpad, set_entry, set_value, get_value, scratchpad_budget,
}

same_key_refl : (k : Key) → same_key k k ≡ true
same_key_refl failures = refl
same_key_refl (step i) = ground arith

same_key_sound : (k j : Key) → same_key k j ≡ true → k ≡ j
same_key_sound failures failures h = refl
same_key_sound failures (step j) h = cc h
same_key_sound (step i) failures h = cc h
same_key_sound (step i) (step j) h = ap step (ground arith)

get-set_entry : (pad : Scratchpad) (k : Key) (v : List ℕ) → get_value (set_entry pad k v) k ≡ v
unfolding get_value set_entry
get-set_entry [] k v = rw (same_key_refl k) refl
get-set_entry (e ∷ pad) k v = elim (Bool-cases (same_key e.key k)) [
  | inl h ↦ rw (h, h) refl
  | inr h ↦ rw (h, h) (get-set_entry pad k v)
]

get_other :
    (pad : Scratchpad) (k j : Key) (v : List ℕ)
    → same_key k j ≡ false
    → get_value (set_entry pad k v) j ≡ get_value pad j
unfolding get_value set_entry
get_other [] k j v n = rw n refl
get_other (e ∷ pad) k j v n = elim (Bool-cases (same_key e.key k)) [
  | inl h ↦ rw (h, subst (λ x. same_key x j ≡ false) (sym (same_key_sound e.key k h)) n) refl
  | inr h ↦ rw (h, get_other pad k j v n) refl
]

-- A value that is set is read back, cut at the budget, and the values of the other keys are as
-- before.
get_value-set_value :
    (rune_start : ℕ → Bool) (pad : Scratchpad) (k j : Key) (v : List ℕ)
    → (get_value (set_value rune_start pad k v) k ≡ truncate rune_start v scratchpad_budget)
      × ((same_key k j ≡ true) ⊎ (get_value (set_value rune_start pad k v) j ≡ get_value pad j))
unfolding set_value
get_value-set_value rune_start pad k j v = (
  get-set_entry pad k _,
  elim (Bool-cases (same_key k j)) [ inl h ↦ inl h | inr h ↦ inr (get_other pad k j _ h) ],
)
