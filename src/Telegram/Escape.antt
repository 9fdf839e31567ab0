-- ===== src/Telegram/Escape.antt =====
-- The escaping in platform/telegram/format.go.
use sokratos.Base.{
  ℕ, zero, suc, ◌≡◌, ◌≢◌, inl, inr, refl, ap, true, List, [], ◌∷◌, ◌++◌, ◌==◌, if◌then◌else◌, bytes,
  All, Bool-cases, arith, has_prefix,
}
use sokratos.Telegram.{replace_byte, escape_html}

-- What a browser shows for the three names.
abbrev pub escaped : ℕ → List ℕ
escaped c =
    if c == b'&'
    then bytes "&amp;"
    else if c == b'<'
    then bytes "&lt;"
    else if c == b'>'
    then bytes "&gt;"
    else c ∷ []

abbrev pub escape_each : List ℕ → List ℕ
escape_each [] = []
escape_each (c ∷ s) = escaped c ++ escape_each s

each_lem : (s : List ℕ) → escape_html s ≡ escape_each s
unfolding escape_html replace_byte
each_lem [] = refl
each_lem (c ∷ s) = elim (Bool-cases (c == 38)) [
  | inl e ↦ rw e (ap (λ t. bytes "&amp;" ++ t) (each_lem s))
  | inr e ↦ elim (Bool-cases (c == 60)) [
    | inl l ↦ rw (escape_html, replace_byte, e, l) (ap (λ t. bytes "&lt;" ++ t) (each_lem s))
    | inr l ↦ elim (Bool-cases (c == 62)) [
      | inl g ↦ rw (escape_html, replace_byte, e, l, g) (ap (λ t. bytes "&gt;" ++ t) (each_lem s))
      | inr g ↦ rw (escape_html, replace_byte, e, l, g) (ap (◌∷◌ c) (each_lem s))
    ]
  ]
]

-- The text that a reader sees: the three names stand for their bytes. The number counts the bytes of
-- a name that are left.
unfoldable pub unescape : ℕ → List ℕ → List ℕ
unescape skip [] = []
unescape (suc skip) (c ∷ s) = unescape skip s
unescape zero (c ∷ s) =
    let amp = unescape 4 s in
    let angle = unescape 3 s in
    let next = unescape 0 s in
    if c == b'&'
    then (if has_prefix s (bytes "amp;")
        then b'&' ∷ amp
        else if has_prefix s (bytes "lt;")
        then b'<' ∷ angle
        else if has_prefix s (bytes "gt;")
        then b'>' ∷ angle
        else c ∷ next)
    else c ∷ next

first_same : (c d : ℕ) (t s : List ℕ) → (c == d) ≡ true → t ≡ s → ◌≡◌ {A = List ℕ} (d ∷ t) (c ∷ s)
first_same c d t s e h = let same : c ≡ d = ground (arith, e) in cc (same, h)

unescape-escape_each : (s : List ℕ) → unescape 0 (escape_each s) ≡ s
unfolding unescape
unescape-escape_each [] = refl
unescape-escape_each (c ∷ s) = elim (Bool-cases (c == 38)) [
  | inl e ↦ rw e (first_same c 38 _ s e (unescape-escape_each s))
  | inr e ↦ elim (Bool-cases (c == 60)) [
    | inl l ↦ rw (e, l) (first_same c 60 _ s l (unescape-escape_each s))
    | inr l ↦ elim (Bool-cases (c == 62)) [
      | inl g ↦ rw (e, l, g) (first_same c 62 _ s g (unescape-escape_each s))
      | inr g ↦ rw (e, l, g) (rw (unescape, e) (ap (◌∷◌ c) (unescape-escape_each s)))
    ]
  ]
]

abbrev pub IsNoAngle : ℕ → Type 0
IsNoAngle c = (c ≢ b'<') × (c ≢ b'>')

both : (s t : List ℕ) → All IsNoAngle s → All IsNoAngle t → All IsNoAngle (s ++ t)
both [] t a b = b
both (c ∷ s) t a b = (a.0, both s t a.1 b)

escape_each-IsNoAngle : (s : List ℕ) → All IsNoAngle (escape_each s)
escape_each-IsNoAngle [] = tt
escape_each-IsNoAngle (c ∷ s) = elim (Bool-cases (c == 38)) [
  | inl e ↦ rw e (both (bytes "&amp;") (escape_each s) (omega arith) (escape_each-IsNoAngle s))
  | inr e ↦ elim (Bool-cases (c == 60)) [
    | inl l ↦
        rw (e, l) (both (bytes "&lt;") (escape_each s) (omega arith) (escape_each-IsNoAngle s))
    | inr l ↦ elim (Bool-cases (c == 62)) [
      | inl g ↦
          rw (e, l, g) (both (bytes "&gt;") (escape_each s) (omega arith) (escape_each-IsNoAngle s))
      | inr g ↦ rw (e, l, g) (((ground (arith, l)), ground (arith, g)), escape_each-IsNoAngle s)
    ]
  ]
]

-- An escaped text shows as the text it comes from, and holds no angle bracket.
pub escape_html_shows :
    (s : List ℕ) → (unescape 0 (escape_html s) ≡ s) × All IsNoAngle (escape_html s)
escape_html_shows s = rw (each_lem s) (unescape-escape_each s, escape_each-IsNoAngle s)
