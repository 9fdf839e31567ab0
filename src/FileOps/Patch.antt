-- ===== src/FileOps/Patch.antt =====
-- What a patch of tools/file_ops.go does to the files.
use sokratos.Base.{
  ℕ, zero, suc, ◌+◌, ◌-◌, ◌≡◌, ◌⊎◌, inl, inr, refl, ap, sym, subst, ◌∙◌, Bool, true, false, Option,
  none, some, List, [], ◌∷◌, ◌++◌, ◌==◌, length, drop, Bool-cases, arith, has_prefix,
}
use sokratos.Registry.{lookup, assign}
use sokratos.FileOps.{
  Files, WriteEnd, not_created, not_written, not_closed, not_renamed, written, is_written,
  atomic_write_file, Opened, read_path, count_from, replace_first, PatchAnswer, patched,
  write_answer, patch_counted, patch_file,
}

same : (a b : ℕ) → (a == b) ≡ true → a ≡ b
same a b h = ground arith

-- Replaces by itself the prefix that is there.
has_prefix_split : (s old : List ℕ) → has_prefix s old ≡ true → s ≡ old ++ drop (length old) s
has_prefix_split s [] h = refl
has_prefix_split [] (p ∷ old) h = cc h
has_prefix_split (c ∷ s) (p ∷ old) h = elim (Bool-cases (c == p)) [
  | inl e ↦
      subst (λ d. c ∷ s ≡ d ∷ (old ++ drop (length old) s)) (same c p e)
        (ap (λ t. c ∷ t) (has_prefix_split s old (rw e at h)))
  | inr e ↦ cc (rw e at h)
]

count_skip : (k : ℕ) (s old : List ℕ) → count_from k s old ≡ count_from 0 (drop k s) old
unfolding count_from
count_skip zero s old = refl
count_skip (suc k) [] old = refl
count_skip (suc k) (c ∷ s) old = count_skip k s old

count_missed :
    (c : ℕ) (s old : List ℕ)
    → has_prefix (c ∷ s) old ≡ false
    → count_from 0 (c ∷ s) old ≡ count_from 0 s old
unfolding count_from
count_missed c s old h = rw (count_from, h) (omega arith)

pred : (n : ℕ) → suc n - 1 ≡ n
pred n = omega arith

count_found :
    (c o : ℕ) (s old : List ℕ)
    → has_prefix (c ∷ s) (o ∷ old) ≡ true
    → count_from 0 (c ∷ s) (o ∷ old) ≡ 1 + count_from 0 (drop (length old) s) (o ∷ old)
unfolding count_from
count_found c o s old h =
    rw (count_from, h, pred (length old)) (ap (λ n. 1 + n) (count_skip (length old) s (o ∷ old)))

-- `old` does not begin at any of the first `n` places.
abbrev pub NoneBefore : ℕ → List ℕ → List ℕ → Type 0
NoneBefore zero s old = Unit
NoneBefore (suc n) [] old = Unit
NoneBefore (suc n) (c ∷ s) old = (has_prefix (c ∷ s) old ≡ false) × NoneBefore n s old

-- A text in which `old` is found once, and its first place, behind which it is not found again.
abbrev pub Once : List ℕ → List ℕ → List ℕ → List ℕ → Type 0
Once s old new replaced =
    (before : List ℕ) × (after : List ℕ) × (s ≡ before ++ (old ++ after))
    × (count_from 0 s old ≡ 1)
    × NoneBefore (length before) s old
    × (replaced ≡ before ++ (new ++ after))
    × (count_from 0 after old ≡ 0)

replace_first-Once :
    (o : ℕ) (s old new : List ℕ)
    → count_from 0 s (o ∷ old) ≡ 1
    → Once s (o ∷ old) new (replace_first s (o ∷ old) new)
unfolding replace_first count_from
replace_first-Once o [] old new h = absurd (omega (arith, h))
replace_first-Once o (c ∷ s) old new h = elim (Bool-cases (has_prefix (c ∷ s) (o ∷ old))) [
  | inl e ↦ (
    [],
    drop (length old) s,
    has_prefix_split (c ∷ s) (o ∷ old) e,
    h,
    tt,
    rw (replace_first, e) refl,
    omega (arith, count_found c o s old e, h),
  )
  | inr e ↦
      let (before, after, split, once, first, replaced, rest) =
        replace_first-Once o s old new (sym (count_missed c s (o ∷ old) e) ∙ h) in
      (
        c ∷ before,
        after,
        ap (λ t. c ∷ t) split,
        h,
        (e, first),
        rw (replace_first, e) (ap (λ t. c ∷ t) replaced),
        rest,
      )
]

abbrev pub is_patched : PatchAnswer → Bool
is_patched patched = true
is_patched _ = false

-- The file is replaced at one place, or nothing is, where the text was not found once or the write
-- came to no end.
abbrev pub Patched :
    Files → List ℕ → List ℕ → List ℕ → List ℕ → WriteEnd → Files × PatchAnswer → Type 0
Patched files path s old new end out =
    ((replaced : List ℕ) × Once s old new replaced
      × (out.0 ≡ assign files path replaced)
      × (is_patched out.1 ≡ true)
      × (is_written end ≡ true))
    ⊎ ((out.0 ≡ files)
        × (is_patched out.1 ≡ false)
        × (((count_from 0 s old == 1) ≡ false) ⊎ (is_written end ≡ false)))

written_lem :
    (files : Files) (path s old new replaced : List ℕ) (end : WriteEnd)
    → Once s old new replaced
    → Patched files path s old new end (write_answer (atomic_write_file files path replaced end))
unfolding atomic_write_file
written_lem files path s old new replaced not_created once = inr (refl, refl, inr refl)
written_lem files path s old new replaced not_written once = inr (refl, refl, inr refl)
written_lem files path s old new replaced not_closed once = inr (refl, refl, inr refl)
written_lem files path s old new replaced not_renamed once = inr (refl, refl, inr refl)
written_lem files path s old new replaced written once = inl (replaced, once, refl, refl, refl)

counted_lem :
    (files : Files) (path s new : List ℕ) (o : ℕ) (old : List ℕ) (end : WriteEnd) (n : ℕ)
    → count_from 0 s (o ∷ old) ≡ n
    → Patched files path s (o ∷ old) new end (patch_counted files path s (o ∷ old) new end n)
unfolding patch_counted
counted_lem files path s new o old end zero h = inr (refl, refl, inl (rw h refl))
counted_lem files path s new o old end (suc zero) h =
    written_lem files path s (o ∷ old) new (replace_first s (o ∷ old) new) end
      (replace_first-Once o s old new h)
counted_lem files path s new o old end (suc (suc n)) h = inr (refl, refl, inl (ground arith))

-- A patch of a file that can be read puts the new text at the first place of the old one, where that
-- is found exactly once, counted without overlaps, and the write comes to its end. Otherwise, where
-- it is not found once or the write comes to no end, it changes no file and does not say that it did.
pub patch_file_replaces :
    (files : Files) (refused : List ℕ → Option Opened) (path s new : List ℕ) (o : ℕ) (old : List ℕ)
    (end : WriteEnd)
    → refused path ≡ none
    → lookup files path ≡ some s
    → Patched files path s
        (o ∷ old)
        new
        end
        (patch_file files refused (some path) (o ∷ old) new end)
unfolding patch_file read_path
patch_file_replaces files refused path s new o old end r l =
    subst (Patched files path s (o ∷ old) new end) (sym opened)
      (counted_lem files path s new o old end (count_from 0 s (o ∷ old)) refl)
  where
    opened :
        patch_file files refused (some path) (o ∷ old) new end
        ≡ patch_counted files path s (o ∷ old) new end (count_from 0 s (o ∷ old))
    opened = rw (patch_file, read_path, r, l) refl
