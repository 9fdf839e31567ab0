-- ===== src/Text.antt =====
-- textutil/textutil.go: `Truncate` and `ExtractJSON`. A text is its bytes, and `utf8.RuneStart` is
-- an argument.
pub mod Boundary
pub mod Json
pub mod Clean
use sokratos.Base.{
  ℕ, zero, suc, ◌+◌, ◌-◌, ◌*◌, ◌/◌, ◌%◌, ◌^◌, ◌≤◌, ◌<◌, ◌≡◌, ◌≢◌, ◌↔◌, ◌⊎◌, inl, inr, refl, ap, sym,
  ◌∙◌, Bool, true, false, not, ◌&&◌, ◌||◌, Option, none, some, List, [], ◌∷◌, ◌++◌, ltb, leb, ◌==◌,
  if◌then◌else◌, length, take, drop, get_elem?, is_empty, bytes, bytes_eq, ℤ, positive_or, Elem,
  All, Bool-cases, Option-cases, arith, length-append,
}

-- `for n > 0 && !utf8.RuneStart(s[n]) { n-- }`; `n` stays in range where it starts below `len(s)`.
abbrev pub starts_at : (ℕ → Bool) → Option ℕ → Bool
starts_at rune_start none = false
starts_at rune_start (some c) = rune_start c

unfoldable pub back_off : (ℕ → Bool) → List ℕ → ℕ → ℕ
back_off rune_start s zero = zero
back_off rune_start s (suc n) =
    let fewer = back_off rune_start s n in
    if starts_at rune_start (get_elem? s (suc n)) then suc n else fewer

unfoldable pub truncate : (ℕ → Bool) → List ℕ → ℕ → List ℕ
unfolding back_off
truncate rune_start s n =
    if leb (length s) n then s else take (back_off rune_start s n) s ++ bytes "..."

-- The text from its first brace on.
unfoldable pub from_brace : List ℕ → Option (List ℕ)
from_brace [] = none
from_brace (c ∷ s) = let later = from_brace s in if c == b'{' then some (c ∷ s) else later

abbrev pub keep : ℕ → Option (List ℕ) → Option (List ℕ)
keep c none = none
keep c (some s) = some (c ∷ s)

-- The loop: the bytes up to the brace that brings the depth back to 0, or `none` where the text ends
-- before it. The flags are `inString` and `escaped`. It starts on an opening brace, so that the
-- depth is not 0 at a closing one.
unfoldable pub scan : ℕ → Bool → Bool → List ℕ → Option (List ℕ)
scan depth in_string escaped [] = none
scan depth in_string true (c ∷ s) = keep c (scan depth in_string false s)
scan depth true false (c ∷ s) =
    let after_escape = scan depth true true s in
    let outside = scan depth false false s in
    let inside = scan depth true false s in
    keep c (if c == 92 then after_escape else if c == 34 then outside else inside)
scan depth false false (c ∷ s) =
    let quoted = scan depth true false s in
    let deeper = scan (suc depth) false false s in
    let shallower = scan (depth - 1) false false s in
    let same = scan depth false false s in
    if c == 34
    then keep c quoted
    else if c == b'{'
    then keep c deeper
    else if c == b'}'
    then (if depth - 1 == 0 then some (c ∷ []) else keep c shallower)
    else keep c same

abbrev pub or_whole : Option (List ℕ) → List ℕ → List ℕ
or_whole none s = s
or_whole (some t) s = t

unfoldable pub extract_json : List ℕ → List ℕ
unfolding from_brace scan
extract_json s = elim (from_brace s) [ none ↦ s | some t ↦ or_whole (scan 0 false false t) t ]
