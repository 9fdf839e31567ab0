-- ===== src/Consolidate.antt =====
-- pipelines/consolidate_memory.go: the batches of `ConsolidateCore`, and `applyMemoryMerges`.
-- Texts are bytes, saliences are of any type `S`, and the ids that the LLM gives are not negative.
-- The printed ids, the length of the fixed part of the prompt, what a batch comes to, and the
-- maximum that the database computes are arguments.
pub mod Batches
pub mod Profile
pub mod Card
pub mod Superseded
use sokratos.Base.{
  ℕ, zero, suc, ◌+◌, ◌-◌, ◌*◌, ◌/◌, ◌%◌, ◌^◌, ◌≤◌, ◌<◌, ◌≡◌, ◌≢◌, ◌↔◌, ◌⊎◌, inl, inr, refl, ap, sym,
  subst, ◌∙◌, Bool, true, false, not, ◌&&◌, ◌||◌, Option, none, some, List, [], ◌∷◌, ◌++◌, ltb, leb,
  ◌==◌, if◌then◌else◌, length, take, drop, get_elem?, is_empty, bytes, bytes_eq, bytes_eq_refl,
  bytes_eq_sound, ℤ, pos, negsuc, positive_or, Elem, All, Bool-cases, Option-cases, arith,
  length-append, has_prefix, length-snoc, length-take-le, length-drop,
}

-- A row of `QueryHighSalienceMemories`.
pub record HighMemory : Type 0 where
  pub id : ℕ
  pub summary : List ℕ

-- `fmt.Sprintf("[id=%d] %s\n", m.ID, m.Summary)`.
unfoldable pub memory_line : (ℕ → List ℕ) → HighMemory → List ℕ
memory_line show m = bytes "[id=" ++ (show m.id ++ (bytes "] " ++ (m.summary ++ 10 ∷ [])))

abbrev pub prompt_budget : ℕ → ℕ
prompt_budget max_prompt_chars = if max_prompt_chars == 0 then 50_000 else max_prompt_chars

-- What is left beside the fixed part, and at least 500.
abbrev pub memory_budget : ℕ → ℕ → ℕ
memory_budget budget fixed_len = if ltb (budget - fixed_len) 500 then 500 else budget - fixed_len

-- The memories of one batch, and the remaining ones.
unfoldable pub fill_batch :
    (ℕ → List ℕ) → ℕ → ℕ → ℕ → List HighMemory → List HighMemory × List HighMemory
fill_batch show budget used included [] = ([], [])
fill_batch show budget used included (m ∷ remaining) =
    let len = length (memory_line show m) in
    let (batch, rest) = fill_batch show budget (used + len) (suc included) remaining in
    if ltb budget (used + len) && ltb 0 included then ([], m ∷ remaining) else (m ∷ batch, rest)

-- What the request for a batch and the use of its answer come to: an error, or the profile, empty if
-- it is unchanged, and a count.
pub data BatchEnd : Type 0 where
  batch_fails : BatchEnd
  applied : List ℕ → ℕ → BatchEnd

pub record Consolidated : Type 0 where
  pub total : ℕ
  pub is_error : Bool
  -- The batches whose request was made, and the memories that were not reached.
  pub batches : List (List HighMemory)
  pub unreached : List HighMemory

abbrev pub next_profile : List ℕ → List ℕ → List ℕ
next_profile current updated = if is_empty updated then current else updated

-- `fixed_len` and `answer` take the profile; they also take the number of batches left as fuel, so
-- that they may answer differently each time.
module _ (show : ℕ → List ℕ) (fixed_len : ℕ → List ℕ → ℕ)
    (answer : ℕ → List ℕ → List HighMemory → BatchEnd) (max_prompt_chars : ℕ) where
  abbrev pub first_batch : ℕ → List ℕ → List HighMemory → List HighMemory × List HighMemory
  first_batch fuel profile remaining =
      fill_batch show (memory_budget (prompt_budget max_prompt_chars) (fixed_len fuel profile)) 0 0
        remaining

  unfoldable pub run_batches : ℕ → ℕ → List ℕ → List HighMemory → Consolidated
  unfolding fill_batch
  run_batches fuel total profile [] = record {
    total = total;
    is_error = false;
    batches = [];
    unreached = [];
  }
  run_batches zero total profile (m ∷ remaining) = record {
    total = total;
    is_error = true;
    batches = [];
    unreached = m ∷ remaining;
  }
  run_batches (suc fuel) total profile (m ∷ remaining) =
      let (batch, rest) = first_batch (suc fuel) profile (m ∷ remaining) in
      elim (answer (suc fuel) profile batch) [
        | batch_fails ↦ record {
          total = total;
          is_error = true;
          batches = batch ∷ [];
          unreached = rest;
        }
        | applied updated n ↦
            let later = run_batches fuel (total + n) (next_profile profile updated) rest in
            record later { batches = batch ∷ later.batches }
      ]

  -- `ConsolidateCore` on the memories that the query gives.
  unfoldable pub consolidate_core : List ℕ → List HighMemory → Consolidated
  unfolding run_batches
  consolidate_core profile memories = run_batches (length memories) 0 profile memories

-- The columns of `memories` that a merge reads or writes.
pub record Memory (S : Type 0) : Type 0 where
  pub id : ℕ
  pub summary : List ℕ
  pub salience : S
  pub superseded_by : Option ℕ

pub record MemoryTable (S : Type 0) : Type 0 where
  pub rows : List (Memory S)
  pub next_id : ℕ

pub record MemoryMerge : Type 0 where
  pub source_ids : List ℕ
  pub merged_summary : List ℕ

-- Where a merge stops.
pub data MergeEnd : Type 0 where
  salience_fails embed_fails begin_fails insert_fails supersede_fails commit_fails commits :
      MergeEnd

unfoldable pub has_id : List ℕ → ℕ → Bool
has_id [] id = false
has_id (k ∷ ids) id = k == id || has_id ids id

-- All the ids of the first list are in the second.
unfoldable pub all_in : List ℕ → List ℕ → Bool
unfolding has_id
all_in [] batch_ids = true
all_in (id ∷ ids) batch_ids = has_id batch_ids id && all_in ids batch_ids

abbrev pub is_unset : Option ℕ → Bool
is_unset none = true
is_unset (some k) = false

module _ {S : Type 0} where
  abbrev pub supersede_row : ℕ → List ℕ → Memory S → Memory S
  supersede_row new_id ids m =
      if has_id ids m.id && is_unset m.superseded_by
      then record m { superseded_by = some new_id }
      else m

  -- `UPDATE memories SET superseded_by = $1 WHERE id = ANY($2) AND superseded_by IS NULL`.
  unfoldable pub supersede : ℕ → List ℕ → List (Memory S) → List (Memory S)
  unfolding has_id
  supersede new_id ids [] = []
  supersede new_id ids (m ∷ rows) = supersede_row new_id ids m ∷ supersede new_id ids rows

  unfoldable pub saliences : List ℕ → List (Memory S) → List S
  unfolding has_id
  saliences ids [] = []
  saliences ids (m ∷ rows) =
      let rest = saliences ids rows in if has_id ids m.id then m.salience ∷ rest else rest

  -- `max_or_five` is `COALESCE(MAX(salience), 5)`.
  module _ (trim_space : List ℕ → List ℕ) (max_or_five : List S → S) where
    -- The insertion and the update of a transaction that is committed.
    unfoldable pub merge_rows : MemoryTable S → MemoryMerge → MemoryTable S
    unfolding saliences supersede
    merge_rows t m = record {
      rows = supersede t.next_id m.source_ids (
          t.rows
          ++ record {
            id = t.next_id;
            summary = m.merged_summary;
            salience = max_or_five (saliences m.source_ids t.rows);
            superseded_by = none;
          }
            ∷ []);
      next_id = suc t.next_id;
    }

    -- The serial number is used up by an insertion that is rolled back.
    abbrev pub rolled_back : MemoryTable S → MemoryTable S
    rolled_back t = record t { next_id = suc t.next_id }

    abbrev pub is_merge : List ℕ → MemoryMerge → Bool
    is_merge batch_ids m =
        not (ltb (length m.source_ids) 2 || is_empty (trim_space m.merged_summary))
        && all_in m.source_ids batch_ids

    -- `applyMemoryMerges`: the table, the number merged, and whether it returns an error.
    unfoldable pub apply_memory_merges :
        List ℕ → ℕ → MemoryTable S → List (MemoryMerge × MergeEnd) → MemoryTable S × ℕ × Bool
    unfolding all_in merge_rows
    apply_memory_merges batch_ids merged t [] = (t, merged, false)
    apply_memory_merges batch_ids merged t ((m, merge_end) ∷ merges) =
        let skipped = apply_memory_merges batch_ids merged t merges in
        let undone = apply_memory_merges batch_ids merged (rolled_back t) merges in
        let done =
          apply_memory_merges batch_ids (merged + length m.source_ids) (merge_rows t m) merges in
        if not (is_merge batch_ids m) then skipped else elim merge_end [
          | salience_fails ↦ skipped
          | embed_fails ↦ skipped
          | begin_fails ↦ (t, merged, true)
          | insert_fails ↦ skipped
          | supersede_fails ↦ undone
          | commit_fails ↦ undone
          | commits ↦ done
        ]
