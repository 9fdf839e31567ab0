-- ===== src/Consolidate/Batches.antt =====
-- The batches of `ConsolidateCore` in pipelines/consolidate_memory.go.
use sokratos.Base.{
  ℕ, ◌+◌, ◌≤◌, ◌<◌, ◌≡◌, ◌⊎◌, true, false, some, List, [], ◌∷◌, ◌++◌, length, All, get_last?,
}
use sokratos.Consolidate.{
  HighMemory, memory_line, prompt_budget, memory_budget, BatchEnd, batch_fails, Consolidated,
}

abbrev pub lines_length : (ℕ → List ℕ) → List HighMemory → ℕ
lines_length show [] = 0
lines_length show (m ∷ batch) = length (memory_line show m) + lines_length show batch

abbrev pub flatten : List (List HighMemory) → List HighMemory
flatten [] = []
flatten (batch ∷ batches) = batch ++ flatten batches

abbrev Filled : (ℕ → List ℕ) → ℕ → ℕ → List HighMemory → List HighMemory × List HighMemory → Type 0
Filled show budget used remaining (batch, rest) =
    (batch ++ rest ≡ remaining) × ((batch ≡ []) ⊎ (used + lines_length show batch ≤ budget))

-- A batch holds a memory, and fits into the budget or holds no other.
abbrev pub FitsIn : (ℕ → List ℕ) → ℕ → List HighMemory → Type 0
FitsIn show budget batch =
    (0 < length batch) × ((length batch ≡ 1) ⊎ (lines_length show batch ≤ budget))

abbrev Taken : (ℕ → List ℕ) → ℕ → List HighMemory → List HighMemory × List HighMemory → Type 0
Taken show budget remaining (batch, rest) = (batch ++ rest ≡ remaining) × FitsIn show budget batch

module _ (show : ℕ → List ℕ) (fixed_len : ℕ → List ℕ → ℕ)
    (answer : ℕ → List ℕ → List HighMemory → BatchEnd) (max_prompt_chars : ℕ) where
  -- It fits beside the fixed part of the prompt for some profile.
  abbrev pub IsBatch : List HighMemory → Type 0
  IsBatch batch =
      (left : ℕ) × (profile : List ℕ) × FitsIn show
        (memory_budget (prompt_budget max_prompt_chars) (fixed_len left profile)) batch

  -- Without an error all memories were reached; with one, the last batch is the one that failed.
  abbrev pub EndsWell : Consolidated → Type 0
  EndsWell out =
      ((out.is_error ≡ false) × (out.unreached ≡ []))
      ⊎ ((out.is_error ≡ true)
          × ((batch : List HighMemory) × (get_last? out.batches ≡ some batch)
              × ((left : ℕ) × (profile : List ℕ) × (answer left profile batch ≡ batch_fails))))

  abbrev pub Partitions : List HighMemory → Consolidated → Type 0
  Partitions memories out =
      (flatten out.batches ++ out.unreached ≡ memories) × All IsBatch out.batches × EndsWell out
