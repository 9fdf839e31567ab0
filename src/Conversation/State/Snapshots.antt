-- ===== src/Conversation/State/Snapshots.antt =====
-- The conversation snapshot of engine/state.go: the goroutines that `AppendMessage` and
-- `SlideMessages` start, each of which reads the messages under the mutex and stores them later.
use sokratos.Base.{
  ℕ, suc, ◌-◌, ◌<◌, ◌≡◌, ◌⊎◌, inl, inr, refl, sym, subst, ◌∙◌, Option, none, some, List, [], ◌∷◌,
  ◌++◌, All, take, drop, length, arith,
}
use sokratos.Conversation.State.{StateManager, append_message, snapshot_of}
use sokratos.Conversation.Wire.{LlmMessage, WireMessage}

-- `started` counts the goroutines that have not read yet, and `unsent` are the texts of those that
-- have read and not stored.
pub record Store : Type 0 where
  pub sm : StateManager
  pub started : ℕ
  pub unsent : List (List ℕ)
  pub snapshot : Option (List ℕ)

abbrev pub slid : ℕ → StateManager → StateManager
slid cutoff sm = record sm { messages = take 1 sm.messages ++ drop cutoff sm.messages }

abbrev pub after_read : Store → Option (List ℕ) → Store
after_read s none = record s { started = s.started - 1 }
after_read s (some text) = record s { started = s.started - 1; unsent = s.unsent ++ text ∷ [] }

All_parts {ℓ} :
    {A : Type 0} (P : A → Type ℓ) (before after : List A) (x : A)
    → All P (before ++ x ∷ after)
    → P x × All P (before ++ after)
All_parts P [] after x h = h
All_parts P (y ∷ before) after x h =
    let rest = All_parts P before after x h.1 in (rest.0, (h.0, rest.1))

All_added {ℓ} :
    {A : Type 0} (P : A → Type ℓ) (xs : List A) (x : A) → All P xs → P x → All P (xs ++ x ∷ [])
All_added P [] x h p = (p, tt)
All_added P (y ∷ xs) x h p = (h.0, All_added P xs x h.1 p)

module _ (marshal : List WireMessage → Option (List ℕ)) where
  pub data Step : Store → Store → Type 0 where
    appends :
        (s : Store) (now : ℕ) (m : LlmMessage)
        → Step s (record s { sm = append_message now m s.sm; started = suc s.started })
    slides :
        (s : Store) (cutoff : ℕ)
        → 0 < cutoff
        → cutoff < length s.sm.messages
        → Step s (record s { sm = slid cutoff s.sm; started = suc s.started })
    reads : (s : Store) → 0 < s.started → Step s (after_read s (snapshot_of marshal s.sm))
    stores :
        (s : Store) (before after : List (List ℕ)) (text : List ℕ)
        → s.unsent ≡ before ++ text ∷ after
        → Step s (record s { unsent = before ++ after; snapshot = some text })
    fails :
        (s : Store) (before after : List (List ℕ)) (text : List ℕ)
        → s.unsent ≡ before ++ text ∷ after
        → Step s (record s { unsent = before ++ after })

  pub data Reach (s : Store) : Store → Type 0 where
    here : Reach s s
    next : {t u : Store} → Reach s t → Step t u → Reach s u

  -- What a conversation on the way came to as a text.
  abbrev pub IsEarlier : Store → Store → List ℕ → Type 0
  IsEarlier s t text = (u : Store) × Reach s u × Reach u t × (snapshot_of marshal u.sm ≡ some text)

  IsEarlier-Step :
      {s t u : Store} (text : List ℕ) → IsEarlier s t text → Step t u → IsEarlier s u text
  IsEarlier-Step text (v, before, after, same) st = (v, before, next after st, same)

  abbrev pub AreEarlier : Store → Store → List (List ℕ) → Type 0
  AreEarlier s t texts = All (IsEarlier s t) texts

  -- The stored snapshot is the first one, or an earlier conversation.
  abbrev pub IsKept : Store → Store → Type 0
  IsKept s t =
      (t.snapshot ≡ s.snapshot) ⊎ ((text : List ℕ) × (t.snapshot ≡ some text) × IsEarlier s t text)

  AreEarlier-Step :
      (s : Store) {t u : Store} (texts : List (List ℕ))
      → AreEarlier s t texts
      → Step t u
      → AreEarlier s u texts
  AreEarlier-Step s [] h st = tt
  AreEarlier-Step s (text ∷ texts) h st =
      (IsEarlier-Step text h.0 st, AreEarlier-Step s texts h.1 st)

  IsKept-Step :
      (s : Store) {t u : Store} → IsKept s t → u.snapshot ≡ t.snapshot → Step t u → IsKept s u
  IsKept-Step s (inl first) same st = inl (same ∙ first)
  IsKept-Step s (inr (text, there, earlier)) same st =
      inr (text, same ∙ there, IsEarlier-Step text earlier st)

  abbrev pub Kept : Store → Store → Type 0
  Kept s t = AreEarlier s t t.unsent × IsKept s t

  read_lem :
      (s t : Store) (o : Option (List ℕ))
      → snapshot_of marshal t.sm ≡ o
      → Reach s t
      → Step t (after_read t o)
      → Kept s t
      → Kept s (after_read t o)
  read_lem s t none e r st (early, kept) =
      (AreEarlier-Step s t.unsent early st, IsKept-Step s kept refl st)
  read_lem s t (some text) e r st (early, kept) = (
    All_added (IsEarlier s (after_read t (some text))) t.unsent text
        (AreEarlier-Step s t.unsent early st) (t, r, next here st, e),
    IsKept-Step s kept refl st,
  )

  Step-Kept : (s : Store) {t u : Store} → Reach s t → Step t u → Kept s t → Kept s u
  Step-Kept s r (appends t now m) (early, kept) = (
    AreEarlier-Step s t.unsent early (appends t now m),
    IsKept-Step s kept refl (appends t now m),
  )
  Step-Kept s r (slides t cutoff above below) (early, kept) = (
    AreEarlier-Step s t.unsent early (slides t cutoff above below),
    IsKept-Step s kept refl (slides t cutoff above below),
  )
  Step-Kept s r (reads t some_started) kept =
      read_lem s t (snapshot_of marshal t.sm) refl r (reads t some_started) kept
  Step-Kept s r (stores t before after text e) (early, kept) =
      let st = stores t before after text e in
      let parts =
        All_parts (IsEarlier s _) before after text
          (AreEarlier-Step s (before ++ text ∷ after) (subst (AreEarlier s t) e early) st) in
      (parts.1, inr (text, refl, parts.0))
  Step-Kept s r (fails t before after text e) (early, kept) =
      let st = fails t before after text e in
      let parts =
        All_parts (IsEarlier s _) before after text
          (AreEarlier-Step s (before ++ text ∷ after) (subst (AreEarlier s t) e early) st) in
      (parts.1, IsKept-Step s kept refl st)

  pub Reach-Kept : (s t : Store) → s.unsent ≡ [] → Reach s t → Kept s t
  Reach-Kept s t none_left here = (subst (AreEarlier s s) (sym none_left) tt, inl refl)
  Reach-Kept s t none_left (next r st) = Step-Kept s r st (Reach-Kept s _ none_left r)

  -- Where no other goroutine is on its way, the two that two messages start may store in the wrong
  -- order: all goroutines are over, the conversation ends with both messages, and the stored snapshot
  -- is that of the conversation without the second one.
  pub stale_snapshot :
      (s : Store) (first second : LlmMessage) (now later : ℕ) (text full : List ℕ)
      → s.started ≡ 0
      → s.unsent ≡ []
      → snapshot_of marshal (append_message now first s.sm) ≡ some text
      → snapshot_of marshal (append_message later second (append_message now first s.sm))
        ≡ some full
      → Reach s (record s {
        sm = append_message later second (append_message now first s.sm);
        snapshot = some text;
      })
  stale_snapshot s first second now later text full idle none_left e f =
      subst (λ n. Reach (record s { started = n }) (record stale { started = n })) (sym idle)
        (subst
          (λ texts.
            Reach (record s { started = 0; unsent = texts })
              (record stale { started = 0; unsent = texts }))
          (sym none_left) in_reverse)
    where
      one : StateManager
      one = append_message now first s.sm

      two : StateManager
      two = append_message later second one

      stale : Store
      stale = record s { sm = two; snapshot = some text }

      -- Both goroutines read in order, and store in reverse order.
      in_reverse :
          Reach (record s { started = 0; unsent = [] }) (record stale { started = 0; unsent = [] })
      in_reverse =
          let s0 = record s { started = 0; unsent = [] } in
          let s1 = record s0 { sm = one; started = 1 } in
          let s2 = record s0 { sm = one; unsent = text ∷ [] } in
          let s3 = record s2 { sm = two; started = 1 } in
          let s4 = record s2 { sm = two; unsent = text ∷ (full ∷ []) } in
          let s5 = record s2 { sm = two; snapshot = some full } in
          let read_one : Step s1 s2 =
            subst (λ o. Step s1 (after_read s1 o)) e (reads s1 (omega arith)) in
          let read_two : Step s3 s4 =
            subst (λ o. Step s3 (after_read s3 o)) f (reads s3 (omega arith)) in
          next
            (next
              (next
                (next (next (next here (appends s0 now first)) read_one) (appends s2 later second))
                read_two)
              (stores s4 (text ∷ []) [] full refl))
            (stores s5 [] [] text refl)
