-- ===== src/Text/Json.antt =====
-- What textutil/textutil.go takes out of an answer of the LLM.
use sokratos.Base.{
  ℕ, suc, ◌-◌, ◌≡◌, ◌≢◌, refl, true, false, some, List, [], ◌∷◌, ◌++◌, ◌==◌, All, arith,
}
use sokratos.Text.{from_brace, scan, extract_json}

-- A byte of a string literal, alone or behind a backslash.
pub data Quoted : Type 0 where
  raw escape : ℕ → Quoted

-- What stands in an object, as far as the braces go: bytes that are no brace and no quote, string
-- literals, and objects, each with what follows it.
pub data Body : Type 0 where
  done : Body
  plain : ℕ → Body → Body
  literal : List Quoted → Body → Body
  object : Body → Body → Body

-- The bytes, in front of others.
abbrev pub print_quoted : List Quoted → List ℕ → List ℕ
print_quoted [] rest = rest
print_quoted (raw c ∷ q) rest = c ∷ print_quoted q rest
print_quoted (escape c ∷ q) rest = 92 ∷ c ∷ print_quoted q rest

abbrev pub print : Body → List ℕ → List ℕ
print done rest = rest
print (plain c b) rest = c ∷ print b rest
print (literal q b) rest = 34 ∷ print_quoted q (34 ∷ print b rest)
print (object inner b) rest = b'{' ∷ print inner (b'}' ∷ print b rest)

abbrev pub IsQuoted : List Quoted → Type 0
IsQuoted [] = Unit
IsQuoted (raw c ∷ q) = (c ≢ 34) × (c ≢ 92) × IsQuoted q
IsQuoted (escape c ∷ q) = IsQuoted q

abbrev pub IsBody : Body → Type 0
IsBody done = Unit
IsBody (plain c b) = (c ≢ 34) × (c ≢ b'{') × (c ≢ b'}') × IsBody b
IsBody (literal q b) = IsQuoted q × IsBody b
IsBody (object inner b) = IsBody inner × IsBody b

differ : (a b : ℕ) → a ≢ b → (a == b) ≡ false
differ a b h = ground arith

scan-print_quoted :
    (d : ℕ) (q : List Quoted) (rest t : List ℕ)
    → IsQuoted q
    → scan d false false rest ≡ some t
    → scan d true false (print_quoted q (34 ∷ rest)) ≡ some (print_quoted q (34 ∷ t))
unfolding scan
scan-print_quoted d [] rest t w h = rw h refl
scan-print_quoted d (raw c ∷ q) rest t (a, b, w) h =
    rw (differ c 92 b, differ c 34 a, scan-print_quoted d q rest t w h) refl
scan-print_quoted d (escape c ∷ q) rest t w h = rw (scan-print_quoted d q rest t w h) refl

pred : (d : ℕ) → suc (suc d) - 1 ≡ suc d
pred d = omega arith

suc_nonzero : (d : ℕ) → (suc d == 0) ≡ false
suc_nonzero d = ground arith

scan_close :
    (d : ℕ) (rest t : List ℕ)
    → scan (suc d) false false rest ≡ some t
    → scan (suc (suc d)) false false (b'}' ∷ rest) ≡ some (b'}' ∷ t)
unfolding scan
scan_close d rest t h = rw (pred d, suc_nonzero d, h) refl

scan-print :
    (d : ℕ) (b : Body) (rest t : List ℕ)
    → IsBody b
    → scan (suc d) false false rest ≡ some t
    → scan (suc d) false false (print b rest) ≡ some (print b t)
unfolding scan
scan-print d done rest t w h = h
scan-print d (plain c b) rest t (q, o, e, w) h =
    rw (differ c 34 q, differ c b'{' o, differ c b'}' e, scan-print d b rest t w h) refl
scan-print d (literal q b) rest t (v, w) h =
    rw (scan-print_quoted (suc d) q (print b rest) (print b t) v (scan-print d b rest t w h)) refl
scan-print d (object inner b) rest t (v, w) h =
    rw
      (scan-print (suc d) inner (b'}' ∷ print b rest) (b'}' ∷ print b t) v
        (scan_close d (print b rest) (print b t) (scan-print d b rest t w h)))
      refl

from_brace-prose :
    (prose s : List ℕ)
    → All (λ c. c ≢ b'{') prose
    → from_brace (prose ++ b'{' ∷ s) ≡ some (b'{' ∷ s)
unfolding from_brace
from_brace-prose [] s p = refl
from_brace-prose (c ∷ prose) s (n, p) = rw (differ c b'{' n, from_brace-prose prose s p) refl

-- The first object of an answer comes out whole, whatever braces its string literals and its inner
-- objects have and whatever text stands behind it, if the text before it has no opening brace.
pub extract_json_first :
    (prose tail : List ℕ) (b : Body)
    → All (λ c. c ≢ b'{') prose
    → IsBody b
    → extract_json (prose ++ print (object b done) tail) ≡ print (object b done) []
unfolding extract_json scan
extract_json_first prose tail b p w =
    rw
      (
        extract_json,
        from_brace-prose prose (print b (b'}' ∷ tail)) p,
        scan-print 0 b (b'}' ∷ tail) (b'}' ∷ []) w refl,
      )
      refl
