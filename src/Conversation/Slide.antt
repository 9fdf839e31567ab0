-- ===== src/Conversation/Slide.antt =====
-- The slide of engine/slide.go and engine/state.go, and what other writers may do meanwhile.
use mathlib.Core.List.{append-nil}
use sokratos.Base.{
  ℕ, zero, suc, ◌+◌, ◌-◌, ◌≤◌, ◌<◌, ◌≡◌, ◌⊎◌, inl, inr, refl, ap, sym, subst, ℕ_discrete, ◌∙◌, Bool,
  true, false, List, [], ◌∷◌, ◌++◌, leb, length, length-append, take, drop, arith, Bool-cases,
}
use sokratos.Conversation.{
  Message, test_at, safe_index, segment, slide_messages, slide_and_archive_context,
}
use sokratos.Conversation.Cut.{NoneFrom, safe_index-IsCut, safe_index_range}

take-append_le {ℓ} :
    {A : Type ℓ} (n : ℕ) (xs ys : List A) → n ≤ length xs → take n (xs ++ ys) ≡ take n xs
take-append_le zero xs ys h = refl
take-append_le (suc n) [] ys h = absurd (omega arith)
take-append_le (suc n) (x ∷ xs) ys h = ap (◌∷◌ x) (take-append_le n xs ys (omega arith))

drop-append_le {ℓ} :
    {A : Type ℓ} (n : ℕ) (xs ys : List A) → n ≤ length xs → drop n (xs ++ ys) ≡ drop n xs ++ ys
drop-append_le zero xs ys h = refl
drop-append_le (suc n) [] ys h = absurd (omega arith)
drop-append_le (suc n) (x ∷ xs) ys h = drop-append_le n xs ys (omega arith)

take-drop : (k : ℕ) (ys : List Message) → take k ys ++ drop k ys ≡ ys
take-drop zero ys = refl
take-drop (suc k) [] = refl
take-drop (suc k) (y ∷ ys) = ap (◌∷◌ y) (take-drop k ys)

split_at :
    (n : ℕ) (xs : List Message)
    → 1 ≤ n
    → n ≤ length xs
    → xs ≡ take 1 xs ++ (segment n xs ++ drop n xs)
split_at zero xs p h = absurd (omega arith)
split_at (suc n) [] p h = absurd (omega arith)
split_at (suc n) (x ∷ xs) p h = ap (◌∷◌ x) (sym (take-drop n xs))

none_safe_at :
    (safe : Message → Bool) (messages : List Message) (turns i r : ℕ)
    → NoneFrom safe messages turns i
    → i ≤ r
    → r < i + turns
    → test_at safe messages r ≡ false
none_safe_at safe messages zero i r h lo hi = absurd (omega arith)
none_safe_at safe messages (suc turns) i r h lo hi = elim (ℕ_discrete i r) [
  | yes e ↦ subst (λ k. test_at safe messages k ≡ false) e h.0
  | no d ↦ none_safe_at safe messages turns (suc i) r h.1 (omega arith) (omega arith)
]

module _ {ℓ} {F : Type ℓ} (fingerprint : List Message → F) (same : F → F → Bool) where
  -- `SlideMessages` either leaves the conversation as it is and says so, or removes from it exactly
  -- the archived messages, which then stand right behind its first message; where the fingerprints
  -- of two lists are the same only if the lists are.
  pub slide_messages_removes :
      ((xs ys : List Message) → same (fingerprint xs) (fingerprint ys) ≡ true → xs ≡ ys)
      → (messages archived : List Message) (cutoff : ℕ) → 1 ≤ cutoff
      → let r = slide_messages fingerprint same messages cutoff (fingerprint archived) in
        (r ≡ (messages, false))
        ⊎ ((r ≡ (take 1 messages ++ drop cutoff messages, true))
            × (messages ≡ take 1 messages ++ (archived ++ drop cutoff messages)))
  unfolding slide_messages
  slide_messages_removes injective messages archived cutoff p =
      elim (Bool-cases (leb (length messages) cutoff)) [
        | inl short ↦ inl (rw short)
        | inr long ↦
            elim (Bool-cases
              (same (fingerprint archived) (fingerprint (segment cutoff messages)))) [
                | inr differ ↦ inl (rw (long, differ))
                | inl agree ↦ inr (
                  rw (long, agree),
                  rw (injective archived (segment cutoff messages) agree)
                      (split_at cutoff messages p (ground arith)),
                )
              ]
      ]

  module _ (reflexive : (xs : List Message) → same (fingerprint xs) (fingerprint xs) ≡ true)
      (safe : Message → Bool) where
    slide_messages-append :
        (snapshot appended : List Message) (c : ℕ)
        → 1 ≤ c
        → c < length snapshot
        → slide_messages fingerprint same
            (snapshot ++ appended)
            c
            (fingerprint (segment c snapshot))
          ≡ (take 1 snapshot ++ (drop c snapshot ++ appended), true)
    unfolding slide_messages
    slide_messages-append snapshot appended c lo hi = rw (
      long,
      ap (drop 1) (take-append_le c snapshot appended (omega arith)),
      reflexive (segment c snapshot),
      take-append_le 1 snapshot appended (omega arith),
      drop-append_le c snapshot appended (omega arith),
    )
      where
        long : leb (length (snapshot ++ appended)) c ≡ false
        long = ground (arith, length-append snapshot appended)

    -- Messages that are appended between the snapshot and the slide do not stop it and are kept:
    -- over the limit, the slide takes out of the longer conversation what it would take out of the
    -- snapshot, provided that a fingerprint is the same as itself.
    pub slide_appended :
        (snapshot appended : List Message) (max_messages : ℕ)
        → 0 < max_messages
        → max_messages < length snapshot
        → let c = safe_index safe snapshot max_messages in
          slide_and_archive_context fingerprint same safe snapshot
            (snapshot ++ appended)
            max_messages
          ≡ (take 1 snapshot ++ (drop c snapshot ++ appended), true)
    unfolding slide_and_archive_context
    slide_appended snapshot appended n p h =
        let (lo, hi) = safe_index_range safe snapshot n p h in
        let over : leb (length snapshot) n ≡ false = ground arith in
        rw over (slide_messages-append snapshot appended (safe_index safe snapshot n) lo hi)

    -- With one message over the limit and no safe boundary to cut at, the forced cut removes
    -- nothing: the conversation stays over the limit.
    pub forced_cut_keeps_all :
        (messages : List Message)
        → (max_messages : ℕ) → 0 < max_messages
        → length messages ≡ max_messages + 1
        → NoneFrom safe messages (length messages - 3) 2
        → slide_and_archive_context fingerprint same safe messages messages max_messages
          ≡ (messages, true)
    forced_cut_keeps_all messages n p e none_safe =
        ap (λ m. slide_and_archive_context fingerprint same safe messages m n)
          (sym (append-nil messages))
        ∙ slide_appended messages [] n p (omega (arith, e))
        ∙ ap (λ m. (m, true)) (rw (append-nil, cut) (take-drop 1 messages))
      where
        cut : safe_index safe messages n ≡ 1
        cut = elim (safe_index-IsCut safe messages n p (omega (arith, e))) [
          | inl b ↦ absurd (omega (arith, b, e))
          | inr (inl f) ↦ absurd (
              ground (
                arith,
                none_safe_at safe messages (length messages - 3) 2 (safe_index safe messages n)
                    none_safe (omega (arith, f, e)) (omega (arith, f, e)),
                f,
              ))
          | inr (inr z) ↦ z.0 ∙ omega (arith, e)
        ]
