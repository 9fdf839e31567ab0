-- ===== src/Telegram.antt =====
-- platform/telegram/format.go: Markdown as Telegram HTML, and as text with entities.
-- A text is its bytes. The regular expressions, `strings.TrimSpace`, the printed numbers and the
-- length in UTF-16 are arguments: an expression that replaces all its matches by a function is given
-- as the pieces between and in the matches.
pub mod Render
pub mod Tables
pub mod Escape
pub mod Inline
use sokratos.Base.{
  ℕ, zero, suc, ◌+◌, ◌-◌, ◌*◌, ◌/◌, ◌%◌, ◌^◌, ◌≤◌, ◌<◌, ◌≡◌, ◌≢◌, ◌↔◌, ◌⊎◌, inl, inr, refl, ap, sym,
  subst, ◌∙◌, Bool, true, false, not, ◌&&◌, ◌||◌, Option, none, some, List, [], ◌∷◌, ◌++◌, ltb, leb,
  ◌==◌, if◌then◌else◌, length, take, drop, get_elem?, is_empty, bytes, bytes_eq, bytes_eq_refl,
  bytes_eq_sound, ℤ, pos, negsuc, positive_or, Elem, All, Bool-cases, Option-cases, arith,
  length-append, get_last?, has_prefix, length-snoc, length-take-le, length-drop,
}
use sokratos.RoutineRuns.{remove_all}
use sokratos.FileOps.{split_lines}

-- `strings.Join(lines, "\n")`.
unfoldable pub join_lines : List (List ℕ) → List ℕ
join_lines [] = []
join_lines (line ∷ []) = line
join_lines (line ∷ next ∷ rest) = line ++ 10 ∷ join_lines (next ∷ rest)

abbrev pub fence : List ℕ
fence = bytes "```"

abbrev pub is_bar : Option ℕ → Bool
is_bar none = false
is_bar (some c) = c == b'|'

unfoldable pub is_table_line : List ℕ → Bool
is_table_line trimmed = is_bar (get_elem? trimmed 0) && is_bar (get_last? trimmed)

module _ (trim_space : List ℕ → List ℕ) where
  -- A row of bars, dashes and colons.
  unfoldable pub is_separator : List ℕ → Bool
  unfolding remove_all
  is_separator trimmed = is_empty (
      trim_space
        (remove_all (bytes ":") 0 (remove_all (bytes "|") 0 (remove_all (bytes "-") 0 trimmed))))

  -- The loop of `convertTablesToCodeBlocks` over the lines.
  unfoldable pub convert_lines : Bool → List (List ℕ) → List (List ℕ)
  unfolding is_table_line is_separator
  convert_lines in_table [] = if in_table then fence ∷ [] else []
  convert_lines in_table (line ∷ lines) =
      let trimmed = trim_space line in
      let same = convert_lines in_table lines in
      let inside = convert_lines true lines in
      let outside = convert_lines false lines in
      if is_table_line trimmed
      then (if is_separator trimmed
          then same
          else if in_table
          then trimmed ∷ inside
          else fence ∷ trimmed ∷ inside)
      else if in_table
      then fence ∷ line ∷ outside
      else line ∷ outside

  unfoldable pub convert_tables_to_code_blocks : List ℕ → List ℕ
  unfolding convert_lines split_lines join_lines
  convert_tables_to_code_blocks md = join_lines (convert_lines false (split_lines md))

-- `strings.ReplaceAll` of one byte.
unfoldable pub replace_byte : ℕ → List ℕ → List ℕ → List ℕ
replace_byte b by [] = []
replace_byte b by (c ∷ s) =
    let rest = replace_byte b by s in if c == b then by ++ rest else c ∷ rest

unfoldable pub escape_html : List ℕ → List ℕ
unfolding replace_byte
escape_html s =
    replace_byte 62 (bytes "&gt;")
      (replace_byte 60 (bytes "&lt;") (replace_byte 38 (bytes "&amp;") s))

-- A match of an expression, or the text before, between or after the matches.
pub data Piece : Type 0 where
  outside matched : List ℕ → Piece

-- `\x00CB%d\x00` or `\x00IC%d\x00`.
abbrev pub placeholder : (ℕ → List ℕ) → List ℕ → ℕ → List ℕ
placeholder show kind idx = 0 ∷ kind ++ (show idx ++ 0 ∷ [])

-- The matches in order, and the text with placeholders for them; `idx` is the number before.
unfoldable pub extract : (ℕ → List ℕ) → List ℕ → ℕ → List Piece → List ℕ × List (List ℕ)
extract show kind idx [] = ([], [])
extract show kind idx (outside t ∷ pieces) =
    let (text, codes) = extract show kind idx pieces in (t ++ text, codes)
extract show kind idx (matched inner ∷ pieces) =
    let (text, codes) = extract show kind (suc idx) pieces in
    (placeholder show kind idx ++ text, inner ∷ codes)

-- `strings.Index(s, part)` with the text in front of and behind the part.
unfoldable pub cut_at : List ℕ → List ℕ → Option (List ℕ × List ℕ)
cut_at part [] = if is_empty part then some ([], []) else none
cut_at part (c ∷ s) =
    let later = cut_at part s in
    if has_prefix (c ∷ s) part
    then some ([], drop (length part) (c ∷ s))
    else elim later [ none ↦ none | some (before, after) ↦ some (c ∷ before, after) ]

pub data EntityType : Type 0 where
  bold italic strikethrough text_link pre code : EntityType

pub record TelegramEntity : Type 0 where
  pub kind : EntityType
  pub offset : ℕ
  pub length : ℕ
  pub url : List ℕ

-- A match of an expression: where it lies, its first group, and the second.
pub record Match : Type 0 where
  pub start : ℕ
  pub stop : ℕ
  pub inner : List ℕ
  pub second : List ℕ

-- The first match of each expression.
pub record Matchers : Type 0 where
  pub bold_re : List ℕ → Option Match
  pub strike_re : List ℕ → Option Match
  pub link_re : List ℕ → Option Match
  pub italic_re : List ℕ → Option Match

pub record InlineMatch : Type 0 where
  pub replace_start : ℕ
  pub replace_end : ℕ
  pub inner : List ℕ
  pub entity_type : EntityType
  pub url : List ℕ

abbrev pub whole_match : EntityType → Match → InlineMatch
whole_match kind m = record {
  replace_start = m.start;
  replace_end = m.stop;
  inner = m.inner;
  entity_type = kind;
  url = [];
}

abbrev pub link_match : Match → InlineMatch
link_match m = record (whole_match text_link m) { url = m.second }

-- `strings.Index(s, "*")` and `strings.LastIndex(s, "*")`, where there is a star.
unfoldable pub first_star : List ℕ → ℕ
first_star [] = 0
first_star (c ∷ s) = let rest = first_star s in if c == b'*' then 0 else suc rest

unfoldable pub last_star : List ℕ → Option ℕ
last_star [] = none
last_star (c ∷ s) = elim (last_star s) [
  | some i ↦ some (suc i)
  | none ↦ if c == b'*' then some 0 else none
]

abbrev pub or_zero : Option ℕ → ℕ
or_zero none = 0
or_zero (some i) = i

-- The stars of an italic match, without the bytes around them.
unfoldable pub italic_match : List ℕ → Match → InlineMatch
unfolding first_star last_star
italic_match s m =
    let text = take (m.stop - m.start) (drop m.start s) in
    record {
      replace_start = m.start + first_star text;
      replace_end = m.start + or_zero (last_star text) + 1;
      inner = m.inner;
      entity_type = italic;
      url = [];
    }

abbrev pub leftmost : Option InlineMatch → Option InlineMatch → Option InlineMatch
leftmost best none = best
leftmost none (some m) = some m
leftmost (some b) (some m) = if ltb m.replace_start b.replace_start then some m else some b

abbrev pub map_match : (Match → InlineMatch) → Option Match → Option InlineMatch
map_match f none = none
map_match f (some m) = some (f m)

module _ (utf16_len : List ℕ → ℕ) (re : Matchers) where
  unfoldable pub find_inline : List ℕ → Option InlineMatch
  unfolding italic_match
  find_inline s =
      leftmost
        (leftmost
          (leftmost (map_match (whole_match bold) (re.bold_re s))
            (map_match (whole_match strikethrough) (re.strike_re s)))
          (map_match link_match (re.link_re s)))
        (map_match (italic_match s) (re.italic_re s))

  abbrev pub entity_of : List ℕ → InlineMatch → TelegramEntity
  entity_of s best = record {
    kind = best.entity_type;
    offset = utf16_len (take best.replace_start s);
    length = utf16_len best.inner;
    url = best.url;
  }

  abbrev pub strip_match : List ℕ → InlineMatch → List ℕ
  strip_match s best = take best.replace_start s ++ (best.inner ++ drop best.replace_end s)

  -- `processAllInlineFormatting`: `none` where the fuel runs out.
  unfoldable pub process_inline :
      ℕ → List ℕ → List TelegramEntity → Option (List ℕ × List TelegramEntity)
  unfolding find_inline
  process_inline zero s entities = none
  process_inline (suc fuel) s entities = elim (find_inline s) [
    | none ↦ some (s, entities)
    | some best ↦ process_inline fuel (strip_match s best) (entities ++ entity_of s best ∷ [])
  ]

  -- A step of the restoring: the placeholder gives way to the code, with an entity.
  unfoldable pub restore :
      (ℕ → List ℕ)
      → List ℕ
      → EntityType
      → ℕ
      → List (List ℕ)
      → List ℕ
      → List TelegramEntity
      → List ℕ × List TelegramEntity
  unfolding cut_at
  restore show prefix kind idx [] s entities = (s, entities)
  restore show prefix kind idx (plain ∷ codes) s entities =
      elim (cut_at (placeholder show prefix idx) s) [
        | none ↦ restore show prefix kind (suc idx) codes s entities
        | some (before, after) ↦
            restore show prefix kind (suc idx) codes (before ++ (plain ++ after)) (
              entities
              ++ record {
                kind = kind;
                offset = utf16_len before;
                length = utf16_len plain;
                url = [];
              }
                ∷ [])
      ]
