-- ===== src/Telegram/Inline.antt =====
-- The inline formatting of platform/telegram/format.go.
use sokratos.Base.{
  ℕ, zero, suc, ◌+◌, ◌-◌, ◌≤◌, ◌<◌, ◌≡◌, inl, inr, refl, ap, sym, ◌∙◌, false, Option, none, some,
  List, [], ◌∷◌, ◌++◌, ltb, ◌==◌, length, take, drop, All, Bool-cases, arith, length-append,
  length-drop,
}
use mathlib.Core.List.{append_assoc, append-nil}
use sokratos.Text.Boundary.{length-take-min}
use sokratos.Telegram.{
  Match, Matchers, InlineMatch, TelegramEntity, whole_match, link_match, italic_match, first_star,
  last_star, or_zero, leftmost, map_match, find_inline, entity_of, strip_match, process_inline,
  bold, strikethrough,
}

-- A match lies in the text and is longer than what it leaves.
abbrev pub IsShorter : List ℕ → InlineMatch → Type 0
IsShorter s m =
    (m.replace_start ≤ m.replace_end)
    × (m.replace_end ≤ length s)
    × (length m.inner < m.replace_end - m.replace_start)

abbrev NoStar : List ℕ → Type 0
NoStar t = All (λ c. (c == b'*') ≡ false) t

-- What an expression with delimiters around its group gives.
abbrev pub IsDelimited : List ℕ → Option Match → Type 0
IsDelimited s none = Unit
IsDelimited s (some m) =
    (m.start ≤ m.stop) × (m.stop ≤ length s) × (length m.inner < m.stop - m.start)

-- What the expression of italics gives: a star on each side of a group without stars, and text
-- without stars around these.
abbrev pub IsStarred : List ℕ → Option Match → Type 0
IsStarred s none = Unit
IsStarred s (some m) =
    (m.start ≤ m.stop)
    × (m.stop ≤ length s)
    × ((before : List ℕ) × (after : List ℕ) × (take (m.stop - m.start) (drop m.start s)
          ≡ before ++ (b'*' ∷ (m.inner ++ (b'*' ∷ after))))
        × (NoStar before × (NoStar m.inner × NoStar after)))

first_star_lem :
    (before rest : List ℕ) → NoStar before → first_star (before ++ b'*' ∷ rest) ≡ length before
unfolding first_star
first_star_lem [] rest a = refl
first_star_lem (c ∷ before) rest a = rw (a.0, first_star_lem before rest a.1) refl

no_last_star : (t : List ℕ) → NoStar t → last_star t ≡ none
unfolding last_star
no_last_star [] a = refl
no_last_star (c ∷ t) a = rw (last_star, no_last_star t a.1, a.0) refl

last_star_lem :
    (before after : List ℕ)
    → NoStar after
    → last_star (before ++ b'*' ∷ after) ≡ some (length before)
unfolding last_star
last_star_lem [] after a = rw (last_star, no_last_star after a) refl
last_star_lem (c ∷ before) after a = rw (last_star, last_star_lem before after a) refl

italic_IsShorter : (s : List ℕ) (m : Match) → IsStarred s (some m) → IsShorter s (italic_match s m)
unfolding italic_match
italic_IsShorter s m (lo, hi, (before, after, e, (no_before, (no_inner, no_after)))) =
    let text = take (m.stop - m.start) (drop m.start s) in
    let size : length text ≤ m.stop - m.start =
      length-take-min (m.stop - m.start) (drop m.start s) in
    let parts : length text ≡ length before + suc (length m.inner + suc (length after)) =
      ap length e
      ∙ length-append before (b'*' ∷ (m.inner ++ (b'*' ∷ after)))
      ∙ omega (arith, length-append m.inner (b'*' ∷ after)) in
    let first : first_star text ≡ length before =
      ap first_star e ∙ first_star_lem before (m.inner ++ (b'*' ∷ after)) no_before in
    let last : or_zero (last_star text) ≡ length before + suc (length m.inner) =
      ap (λ t. or_zero (last_star t))
        (e ∙ sym (append_assoc before (b'*' ∷ m.inner) (b'*' ∷ after)))
      ∙ ap or_zero (last_star_lem (before ++ b'*' ∷ m.inner) after no_after)
      ∙ length-append before (b'*' ∷ m.inner) in
    rw (first, last) (omega arith, omega (arith, lo, hi, size, parts), omega arith)

abbrev Shorter : List ℕ → Option InlineMatch → Type 0
Shorter s none = Unit
Shorter s (some m) = IsShorter s m

leftmost-Shorter :
    (s : List ℕ) (a b : Option InlineMatch) → Shorter s a → Shorter s b → Shorter s (leftmost a b)
leftmost-Shorter s a none p q = p
leftmost-Shorter s none (some m) p q = q
leftmost-Shorter s (some b) (some m) p q = elim (Bool-cases (ltb m.replace_start b.replace_start)) [
  | inl e ↦ rw e q
  | inr e ↦ rw e p
]

whole_Shorter :
    (s : List ℕ) (f : Match → InlineMatch)
    → ((m : Match)
        → ((f m).replace_start ≡ m.start) × ((f m).replace_end ≡ m.stop) × ((f m).inner ≡ m.inner))
    → (o : Option Match) → IsDelimited s o
    → Shorter s (map_match f o)
whole_Shorter s f same none d = tt
whole_Shorter s f same (some m) d = let (start, stop, inner) = same m in rw (start, stop, inner) d

italic_Shorter :
    (s : List ℕ) (o : Option Match) → IsStarred s o → Shorter s (map_match (italic_match s) o)
italic_Shorter s none d = tt
italic_Shorter s (some m) d = italic_IsShorter s m d

length-take-drop :
    (n k : ℕ) (s : List ℕ)
    → n ≤ k
    → k ≤ length s
    → length (take n s) + length (drop k s) + (k - n) ≡ length s
length-take-drop zero k s h l = omega (arith, length-drop k s, l)
length-take-drop (suc n) zero s h l = absurd (omega arith)
length-take-drop (suc n) (suc k) [] h l = absurd (omega arith)
length-take-drop (suc n) (suc k) (c ∷ s) h l =
    omega (arith, length-take-drop n k s (omega arith) (omega (arith, l)))

module _ (utf16_len : List ℕ → ℕ) (re : Matchers) where
  -- What the expressions give on any text.
  abbrev pub IsDocumented : Type 0
  IsDocumented =
      (s : List ℕ)
      → IsDelimited s (re.bold_re s)
        × (IsDelimited s (re.strike_re s)
            × (IsDelimited s (re.link_re s) × IsStarred s (re.italic_re s)))

  find_inline-Shorter : IsDocumented → (s : List ℕ) → Shorter s (find_inline utf16_len re s)
  unfolding find_inline
  find_inline-Shorter d s =
      let (bolds, (strikes, (links, italics))) = d s in
      leftmost-Shorter s _ _
        (leftmost-Shorter s _ _
          (leftmost-Shorter s _ _
            (whole_Shorter s (whole_match bold) (λ m. (refl, refl, refl)) (re.bold_re s) bolds)
            (whole_Shorter s (whole_match strikethrough) (λ m. (refl, refl, refl)) (re.strike_re s)
              strikes))
          (whole_Shorter s link_match (λ m. (refl, refl, refl)) (re.link_re s) links))
        (italic_Shorter s (re.italic_re s) italics)

  strip_match_shorter :
      (s : List ℕ) (m : InlineMatch)
      → IsShorter s m
      → length (strip_match utf16_len re s m) < length s
  strip_match_shorter s m (lo, hi, shorter) = omega (
    arith,
    length-append (take m.replace_start s) (m.inner ++ drop m.replace_end s),
    length-append m.inner (drop m.replace_end s),
    length-take-drop m.replace_start m.replace_end s lo hi,
    shorter,
    lo,
  )

  -- The loop ended: no expression matches any more, the text is not longer, and the entities from
  -- before stand first.
  abbrev pub Ended : List ℕ → List TelegramEntity → Option (List ℕ × List TelegramEntity) → Type 0
  Ended s entities none = ⊥
  Ended s entities (some (text, all)) =
      (find_inline utf16_len re text ≡ none)
      × ((length text ≤ length s)
          × ((more : List TelegramEntity) × (all ≡ entities ++ more)
              × (length more + length text ≤ length s)))

  extend :
      (s t : List ℕ) (entities : List TelegramEntity) (entity : TelegramEntity)
      → (o : Option (List ℕ × List TelegramEntity)) → length t < length s
      → Ended t (entities ++ entity ∷ []) o
      → Ended s entities o
  extend s t entities entity none h e = e
  extend s t entities entity (some (text, all)) h (found, (shorter, (more, same, count))) = (
    found,
    (
      omega (arith, h, shorter),
      (entity ∷ more, same ∙ append_assoc entities (entity ∷ []) more, omega (arith, count, h)),
    ),
  )

  process_inline-Ended :
      IsDocumented
      → (fuel : ℕ) (s : List ℕ) (entities : List TelegramEntity) → length s < fuel
      → Ended s entities (process_inline utf16_len re fuel s entities)
  unfolding process_inline
  process_inline-Ended d zero s entities h = absurd (omega (arith, h))
  process_inline-Ended d (suc fuel) s entities h =
      step (find_inline utf16_len re s) refl (find_inline-Shorter d s)
        (λ t all short. process_inline-Ended d fuel t all short)
    where
      step :
          (o : Option InlineMatch)
          → find_inline utf16_len re s ≡ o
          → Shorter s o
          → ((t : List ℕ) (all : List TelegramEntity)
              → length t < fuel
              → Ended t all (process_inline utf16_len re fuel t all))
          → Ended s entities (elim o [
            | none ↦ some (s, entities)
            | some best ↦
                process_inline utf16_len re fuel
                  (strip_match utf16_len re s best)
                  (entities ++ entity_of utf16_len re s best ∷ [])
          ])
      step none e p ih = (e, (omega arith, ([], sym (append-nil entities), omega arith)))
      step (some best) e p ih =
          let shorter : length (strip_match utf16_len re s best) < length s =
            strip_match_shorter s best p in
          extend s (strip_match utf16_len re s best) entities (entity_of utf16_len re s best)
            (process_inline utf16_len re fuel (strip_match utf16_len re s best)
              (entities ++ entity_of utf16_len re s best ∷ []))
            shorter (ih _ _ (omega (arith, shorter, h)))

  -- The stripping of delimiters comes to an end within one round more than the text has bytes, when
  -- no expression matches any more. Each entity that it adds makes the text shorter.
  pub process_inline_ends :
      IsDocumented → (s : List ℕ) → Ended s [] (process_inline utf16_len re (suc (length s)) s [])
  process_inline_ends d s = process_inline-Ended d (suc (length s)) s [] (omega arith)
