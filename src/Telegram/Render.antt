-- ===== src/Telegram/Render.antt =====
-- The two conversions of platform/telegram/format.go as wholes.
use sokratos.Base.{
  ℕ, suc, ◌+◌, ◌⊎◌, inl, inr, Option, none, some, List, [], ◌∷◌, ◌++◌, length, take, drop, bytes,
}
use sokratos.Telegram.{
  Matchers, Piece, TelegramEntity, code, convert_tables_to_code_blocks, cut_at, escape_html,
  extract, first_star, last_star, or_zero, placeholder, pre, process_inline, restore,
}

-- The expressions that find code and headings, with the two that are only replaced.
pub record Markup : Type 0 where
  pub code_block_re : List ℕ → List Piece
  pub inline_code_re : List ℕ → List Piece
  pub heading_re : List ℕ → List ℕ
  pub bold_html : List ℕ → List ℕ
  -- The text outside the matches, and each match with its group.
  pub italic_pieces : List ℕ → List (List ℕ ⊎ (List ℕ × List ℕ))
  pub strike_html : List ℕ → List ℕ
  pub link_html : List ℕ → List ℕ

unfoldable pub italic_html : List (List ℕ ⊎ (List ℕ × List ℕ)) → List ℕ
unfolding first_star last_star
italic_html [] = []
italic_html (inl t ∷ pieces) = t ++ italic_html pieces
italic_html (inr (text, sub) ∷ pieces) =
    take (first_star text) text
    ++ (bytes "<i>"
        ++ (sub
            ++ (bytes "</i>" ++ (drop (or_zero (last_star text) + 1) text ++ italic_html pieces))))

-- The text and its codes behind an opening and a closing tag.
unfoldable pub put_back :
    (ℕ → List ℕ) → List ℕ → List ℕ → List ℕ → ℕ → List (List ℕ) → List ℕ → List ℕ
unfolding cut_at escape_html
put_back show prefix opening closing idx [] s = s
put_back show prefix opening closing idx (plain ∷ codes) s =
    put_back show prefix opening closing (suc idx) codes
      (elim (cut_at (placeholder show prefix idx) s) [
        | none ↦ s
        | some (before, after) ↦ before ++ (opening ++ (escape_html plain ++ (closing ++ after)))
      ])

module _ (trim_space : List ℕ → List ℕ) (show : ℕ → List ℕ) (markup : Markup) where
  unfoldable pub md_to_telegram_html : List ℕ → List ℕ
  unfolding convert_tables_to_code_blocks extract escape_html italic_html put_back
  md_to_telegram_html md =
      let (blocked, blocks) =
        extract show (bytes "CB") 0
          (markup.code_block_re (convert_tables_to_code_blocks trim_space md)) in
      let (inlined, codes) = extract show (bytes "IC") 0 (markup.inline_code_re blocked) in
      let bolded = markup.bold_html (escape_html (markup.heading_re inlined)) in
      let linked =
        markup.link_html (markup.strike_html (italic_html (markup.italic_pieces bolded))) in
      put_back show (bytes "IC") (bytes "<code>") (bytes "</code>") 0 codes
        (put_back show (bytes "CB") (bytes "<pre>") (bytes "</pre>") 0 blocks linked)

  -- `mdToEntities`; `none` where the fuel runs out.
  unfoldable pub md_to_entities :
      (List ℕ → ℕ) → Matchers → List ℕ → Option (List ℕ × List TelegramEntity)
  unfolding convert_tables_to_code_blocks extract process_inline restore
  md_to_entities utf16_len re md =
      let (blocked, blocks) =
        extract show (bytes "CB") 0
          (markup.code_block_re (convert_tables_to_code_blocks trim_space md)) in
      let (inlined, codes) = extract show (bytes "IC") 0 (markup.inline_code_re blocked) in
      let s = markup.heading_re inlined in
      elim (process_inline utf16_len re (suc (length s)) s []) [
        | none ↦ none
        | some (text, entities) ↦
            let (text', entities') =
              restore utf16_len re show (bytes "CB") pre 0 blocks text entities in
            some (restore utf16_len re show (bytes "IC") code 0 codes text' entities')
      ]
