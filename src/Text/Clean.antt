-- ===== src/Text/Clean.antt =====
-- textutil/textutil.go: the clean-up of an answer of the LLM. The regular expressions and
-- `strings.TrimSpace` are arguments.
use sokratos.Base.{
  ℕ, Option, none, some, List, [], ◌∷◌, ◌==◌, if◌then◌else◌, drop, is_empty, bytes, has_prefix,
}
use sokratos.Text.{extract_json}

-- `strings.LastIndex`: the text in front of the last place where `part` stands, and the text from
-- there on.
unfoldable pub last_place : List ℕ → List ℕ → Option (List ℕ × List ℕ)
last_place part [] = if is_empty part then some ([], []) else none
last_place part (c ∷ s) = elim (last_place part s) [
  | some (before, rest) ↦ some (c ∷ before, rest)
  | none ↦ if has_prefix (c ∷ s) part then some ([], c ∷ s) else none
]

-- The compiled expressions: `think_tag` removes the matched blocks, `code_fence` finds what the
-- first fenced block holds, the others rewrite numbers and commas.
pub record Patterns : Type 0 where
  pub trim_space : List ℕ → List ℕ
  pub think_tag : List ℕ → List ℕ
  pub code_fence : List ℕ → Option (List ℕ)
  pub decimal_space : List ℕ → List ℕ
  pub trailing_dot : List ℕ → List ℕ
  pub trailing_comma : List ℕ → List ℕ

unfoldable pub strip_think_tags : Patterns → List ℕ → List ℕ
unfolding last_place
strip_think_tags p s =
    let result = p.think_tag s in
    elim (last_place (bytes "</think>") result) [
      | none ↦ p.trim_space result
      | some (before, rest) ↦ p.trim_space (drop 8 rest)
    ]

-- What follows the first newline, where there is one.
abbrev pub after_line : List ℕ → List ℕ → List ℕ
after_line whole [] = whole
after_line whole (c ∷ s) = if c == 10 then s else after_line whole s

unfoldable pub strip_code_fences : Patterns → List ℕ → List ℕ
unfolding last_place
strip_code_fences p s =
    if has_prefix s (bytes "```")
    then (let inner = after_line s s in
        elim (last_place (bytes "```") inner) [
          | none ↦ p.trim_space inner
          | some (before, rest) ↦ p.trim_space before
        ])
    else elim (p.code_fence s) [ none ↦ s | some body ↦ p.trim_space body ]

unfoldable pub clean_llm_json : Patterns → List ℕ → List ℕ
unfolding extract_json strip_code_fences strip_think_tags
clean_llm_json p s =
    p.trailing_comma
      (p.trailing_dot (p.decimal_space (extract_json (strip_code_fences p (strip_think_tags p s)))))
