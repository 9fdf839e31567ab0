-- ===== src/Telegram/Tables.antt =====
-- The tables of platform/telegram/format.go.
use sokratos.Base.{
  ℕ, ◌≡◌, ◌⊎◌, inl, inr, refl, ap, ◌∙◌, Bool, true, false, not, List, [], ◌∷◌, if◌then◌else◌,
  bytes_eq, All, arith,
}
use sokratos.Telegram.{fence, is_table_line, is_separator, convert_lines}

table_is_no_fence : (t : List ℕ) → is_table_line t ≡ true → bytes_eq t fence ≡ false
unfolding is_table_line
table_is_no_fence [] h = refl
table_is_no_fence (c ∷ t) h = ground (arith, h)

module _ (trim_space : List ℕ → List ℕ) where
  -- Fences come in pairs; a table row stands between the two of a pair, and any other line does not.
  abbrev pub Fenced : Bool → List (List ℕ) → Type 0
  Fenced in_table [] = in_table ≡ false
  Fenced in_table (line ∷ lines) =
      ((bytes_eq line fence ≡ true) × Fenced (not in_table) lines)
      ⊎ ((bytes_eq line fence ≡ false)
          × ((is_table_line (trim_space line) ≡ in_table) × Fenced in_table lines))

  abbrev pub without_fences : List (List ℕ) → List (List ℕ)
  without_fences [] = []
  without_fences (line ∷ lines) =
      if bytes_eq line fence then without_fences lines else line ∷ without_fences lines

  -- The lines with the rows of tables trimmed and the separators left out.
  abbrev pub cleaned : List (List ℕ) → List (List ℕ)
  cleaned [] = []
  cleaned (line ∷ lines) =
      if is_table_line (trim_space line)
      then (if is_separator trim_space (trim_space line)
          then cleaned lines
          else trim_space line ∷ cleaned lines)
      else line ∷ cleaned lines

  -- Where no line is a fence and trimming twice trims no more, the fences of the result come in
  -- pairs around the rows of tables, and without them the result is the lines, in their order, with
  -- the rows trimmed and the separators left out.
  pub convert_lines-Fenced :
      ((s : List ℕ) → trim_space (trim_space s) ≡ trim_space s)
      → (in_table : Bool) (lines : List (List ℕ)) → All (λ line. bytes_eq line fence ≡ false) lines
      → Fenced in_table (convert_lines trim_space in_table lines)
        × (without_fences (convert_lines trim_space in_table lines) ≡ cleaned lines)
  unfolding convert_lines
  convert_lines-Fenced twice true [] a = (inl (refl, refl), refl)
  convert_lines-Fenced twice false [] a = (refl, refl)
  convert_lines-Fenced twice in_table (line ∷ lines) a =
      step (is_table_line (trim_space line)) refl (is_separator trim_space (trim_space line))
        in_table (λ b. convert_lines trim_space b lines)
        (λ b. convert_lines-Fenced twice b lines a.1)
    where
      no_fence : is_table_line (trim_space line) ≡ true → bytes_eq (trim_space line) fence ≡ false
      no_fence e = table_is_no_fence (trim_space line) e

      row :
          is_table_line (trim_space line) ≡ true
          → is_table_line (trim_space (trim_space line)) ≡ true
      row e = ap is_table_line (twice line) ∙ e

      step :
          (t : Bool)
          → is_table_line (trim_space line) ≡ t
          → (separator in_table : Bool) → (rest : Bool → List (List ℕ))
          → ((b : Bool) → Fenced b (rest b) × (without_fences (rest b) ≡ cleaned lines))
          → let out : List (List ℕ) =
              if t
              then (if separator
                  then rest in_table
                  else if in_table
                  then trim_space line ∷ rest true
                  else fence ∷ trim_space line ∷ rest true)
              else if in_table
              then fence ∷ line ∷ rest false
              else line ∷ rest false in
            Fenced in_table out
            × (without_fences out ≡ (
                if t
                then (if separator then cleaned lines else trim_space line ∷ cleaned lines)
                else line ∷ cleaned lines))
      step true e true b rest ih = ih b
      step true e false true rest ih = (
        inr (no_fence e, (row e, (ih true).0)),
        rw (no_fence e) (ap (◌∷◌ (trim_space line)) (ih true).1),
      )
      step true e false false rest ih = (
        inl (refl, inr (no_fence e, (row e, (ih true).0))),
        rw (no_fence e) (ap (◌∷◌ (trim_space line)) (ih true).1),
      )
      step false e sep true rest ih =
          (inl (refl, inr (a.0, (e, (ih false).0))), rw a.0 (ap (◌∷◌ line) (ih false).1))
      step false e sep false rest ih =
          (inr (a.0, (e, (ih false).0)), rw a.0 (ap (◌∷◌ line) (ih false).1))
