-- ===== src/Conversation/Cut.antt =====
-- Where engine/slide.go cuts the conversation.
use sokratos.Base.{
  ℕ, zero, suc, ◌+◌, ◌-◌, ◌≤◌, ◌<◌, ◌≡◌, ◌⊎◌, inl, inr, refl, Bool, true, false, Option, none, some,
  List, subst, ltb, length, arith, lt→ltb, Bool-cases,
}
use sokratos.Conversation.{
  Message, test_at, walk_backward, walk_forward, or_else, or_index, safe_index,
}

module _ (safe : Message → Bool) (messages : List Message) where
  -- No boundary at 2, …, `c`.
  abbrev pub NoneUpTo : ℕ → Type 0
  NoneUpTo zero = Unit
  NoneUpTo (suc zero) = Unit
  NoneUpTo (suc (suc c)) = (test_at safe messages (suc (suc c)) ≡ false) × NoneUpTo (suc c)

  -- No boundary at `i` and the `turns - 1` indices after it.
  abbrev pub NoneFrom : ℕ → ℕ → Type 0
  NoneFrom zero i = Unit
  NoneFrom (suc turns) i = (test_at safe messages i ≡ false) × NoneFrom turns (suc i)

  NoneFrom-snoc :
      (n i : ℕ) → test_at safe messages (i + n) ≡ false → NoneFrom n i → NoneFrom (suc n) i
  NoneFrom-snoc zero i e h = (subst (λ j. test_at safe messages j ≡ false) (omega arith) e, tt)
  NoneFrom-snoc (suc n) i e h = (
    h.0,
    NoneFrom-snoc n (suc i) (subst (λ j. test_at safe messages j ≡ false) (omega arith) e) h.1,
  )

  none_at : (c i : ℕ) → NoneFrom (c - c) i
  none_at c i = let empty : 0 ≡ c - c = omega arith in subst (λ n. NoneFrom n i) empty tt

  abbrev Backward : ℕ → Option ℕ → Type 0
  Backward c none = NoneUpTo c
  Backward c (some r) =
      (1 < r) × (r ≤ c) × (test_at safe messages r ≡ true) × NoneFrom (c - r) (suc r)

  walk_backward-Backward : (c : ℕ) → Backward c (walk_backward safe messages c)
  unfolding walk_backward
  walk_backward-Backward zero = tt
  walk_backward-Backward (suc zero) = tt
  walk_backward-Backward (suc (suc c)) = elim (Bool-cases (test_at safe messages (suc (suc c)))) [
    | inl e ↦ rw (above, e) (omega arith, omega arith, e, none_at (suc (suc c)) _)
    | inr e ↦
        rw (above, e)
          (further e (walk_backward safe messages (suc c)) (walk_backward-Backward (suc c)))
  ]
    where
      above : ltb 1 (suc (suc c)) ≡ true
      above = lt→ltb 1 (suc (suc c)) (omega arith)

      further :
          test_at safe messages (suc (suc c)) ≡ false
          → (o : Option ℕ) → Backward (suc c) o
          → Backward (suc (suc c)) o
      further e none b = (e, b)
      further e (some r) b =
          let last : suc (suc c) ≡ suc r + (suc c - r) = omega (arith, b.1) in
          let more : suc (suc c - r) ≡ suc (suc c) - r = omega (arith, b.1) in
          (
            b.0,
            omega (arith, b.1),
            b.2,
            subst (λ n. NoneFrom n (suc r)) more
                (NoneFrom-snoc (suc c - r) (suc r)
                  (subst (λ i. test_at safe messages i ≡ false) last e) b.3),
          )

  abbrev Forward : ℕ → ℕ → Option ℕ → Type 0
  Forward turns i none = NoneFrom turns i
  Forward turns i (some r) =
      (i ≤ r) × (r < i + turns) × (test_at safe messages r ≡ true) × NoneFrom (r - i) i

  walk_forward-Forward : (turns i : ℕ) → Forward turns i (walk_forward safe messages turns i)
  unfolding walk_forward
  walk_forward-Forward zero i = tt
  walk_forward-Forward (suc turns) i = elim (Bool-cases (test_at safe messages i)) [
    | inl e ↦ rw e (omega arith, omega arith, e, none_at i _)
    | inr e ↦
        rw e (
          further e (walk_forward safe messages turns (suc i)) (walk_forward-Forward turns (suc i)))
  ]
    where
      further :
          test_at safe messages i ≡ false
          → (o : Option ℕ) → Forward turns (suc i) o
          → Forward (suc turns) i o
      further e none b = (e, b)
      further e (some r) b =
          let more : suc (r - suc i) ≡ r - i = omega (arith, b.0) in
          (omega (arith, b.0), omega (arith, b.1), b.2, subst (λ n. NoneFrom n i) more (e, b.3))

  -- The cut `c`, where the naive one is `naive` and there are `size` messages.
  abbrev pub IsCut : ℕ → ℕ → ℕ → Type 0
  IsCut size naive c =
      ((1 < c) × (c ≤ naive) × (test_at safe messages c ≡ true) × NoneFrom (naive - c) (suc c))
      ⊎ ((naive < c)
          × (c + 1 < size)
          × (test_at safe messages c ≡ true)
          × NoneUpTo naive
          × NoneFrom (c - suc naive) (suc naive))
      ⊎ ((c ≡ naive) × NoneUpTo naive × NoneFrom (size - 1 - (naive + 1)) (naive + 1))

  chosen :
      (size naive : ℕ) (b f : Option ℕ)
      → naive < size
      → Backward naive b
      → Forward (size - 1 - (naive + 1)) (naive + 1) f
      → IsCut size naive (or_index (or_else b f) naive)
  chosen size naive (some r) f h b w = inl b
  chosen size naive none (some r) h b w =
      let next : naive + 1 ≡ suc naive = omega arith in
      inr (
        inl (
          omega (arith, w.0),
          omega (arith, w.1),
          w.2,
          b,
          subst (λ n. NoneFrom (r - n) n) next w.3,
        ))
  chosen size naive none none h b w = inr (inr (refl, b, w))

  -- Over the limit the cut lies at the last safe boundary above 1 that leaves at least
  -- `max_messages` messages behind it; without one, at the first safe boundary further on, before the
  -- last message; and only if there is none of these at the naive cut.
  pub safe_index-IsCut :
      (max_messages : ℕ)
      → 0 < max_messages
      → max_messages < length messages
      → IsCut
          (length messages)
          (length messages - max_messages)
          (safe_index safe messages max_messages)
  unfolding safe_index
  safe_index-IsCut max_messages p h =
      chosen (length messages) (length messages - max_messages) _ _ (omega arith)
        (walk_backward-Backward (length messages - max_messages)) (walk_forward-Forward _ _)

  pub safe_index_range :
      (max_messages : ℕ)
      → 0 < max_messages
      → max_messages < length messages
      → (1 ≤ safe_index safe messages max_messages)
        × (safe_index safe messages max_messages < length messages)
  safe_index_range max_messages p h = ground (arith, safe_index-IsCut max_messages p h)
