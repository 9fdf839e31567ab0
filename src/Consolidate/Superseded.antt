-- ===== src/Consolidate/Superseded.antt =====
-- What the merges of pipelines/consolidate_memory.go do to the memories.
use sokratos.Base.{
  ℕ, suc, ◌+◌, ◌≤◌, ◌<◌, ◌≡◌, ◌⊎◌, inl, inr, refl, ap, subst, ◌∙◌, Bool, true, false, not, ◌&&◌,
  Option, none, some, List, [], ◌∷◌, ◌++◌, ◌==◌, if◌then◌else◌, length, All, Bool-cases, arith,
}
use sokratos.Consolidate.{
  Memory, MemoryTable, MemoryMerge, MergeEnd, salience_fails, embed_fails, begin_fails,
  insert_fails, supersede_fails, commit_fails, commits, has_id, all_in, is_unset, supersede_row,
  supersede, merge_rows, rolled_back, is_merge, apply_memory_merges,
}

abbrev pub PointsUp : ℕ → ℕ → Option ℕ → Type 0
PointsUp next_id id none = Unit
PointsUp next_id id (some k) = (id < k) × (k < next_id)

all_in_has :
    (ids batch : List ℕ) (k : ℕ)
    → all_in ids batch ≡ true
    → has_id ids k ≡ true
    → has_id batch k ≡ true
unfolding all_in has_id
all_in_has [] batch k a h = cc h
all_in_has (id ∷ ids) batch k a h = elim (Bool-cases (id == k)) [
  | inl e ↦ subst (λ n. has_id batch n ≡ true) (same e) (ground arith)
  | inr e ↦ all_in_has ids batch k (ground arith) (ground arith)
]
  where
    same : (id == k) ≡ true → id ≡ k
    same e = ground arith

module _ {S : Type 0} where
  -- The ids are below the next one, and a memory is superseded only by a newer one.
  abbrev pub IsForward : ℕ → Memory S → Type 0
  IsForward next_id m = (m.id < next_id) × PointsUp next_id m.id m.superseded_by

  abbrev pub IsTable : MemoryTable S → Type 0
  IsTable t = All (IsForward t.next_id) t.rows

  -- A row as it was, but that one of the batch that was not superseded may now be, by a memory of a
  -- new id.
  abbrev pub IsKept : List ℕ → ℕ → Memory S → Memory S → Type 0
  IsKept batch next_id m m' =
      (m' ≡ m)
      ⊎ ((has_id batch m.id ≡ true)
          × ((m.superseded_by ≡ none)
              × ((k : ℕ) × (next_id ≤ k) × (m' ≡ record m { superseded_by = some k }))))

  -- The old rows are kept, in their order, and new ones stand after them.
  abbrev pub AreKept : List ℕ → ℕ → List (Memory S) → List (Memory S) → Type 0
  AreKept batch next_id [] rows' = Unit
  AreKept batch next_id (m ∷ rows) [] = ⊥
  AreKept batch next_id (m ∷ rows) (m' ∷ rows') =
      IsKept batch next_id m m' × AreKept batch next_id rows rows'

  supersede_row-IsForward :
      (new_id : ℕ) (ids : List ℕ) (m : Memory S)
      → IsForward new_id m
      → IsForward (suc new_id) (supersede_row new_id ids m)
  supersede_row-IsForward new_id ids m f =
      elim (Bool-cases (has_id ids m.id && is_unset m.superseded_by)) [
        | inl e ↦ rw e (omega (arith, f.0), (f.0, omega arith))
        | inr e ↦ rw e (omega (arith, f.0), weaken m.superseded_by f.1)
      ]
    where
      weaken : (o : Option ℕ) → PointsUp new_id m.id o → PointsUp (suc new_id) m.id o
      weaken none p = tt
      weaken (some k) p = (p.0, omega (arith, p.1))

  supersede-All :
      (new_id : ℕ) (ids : List ℕ) (rows : List (Memory S))
      → All (IsForward new_id) rows
      → All (IsForward (suc new_id)) (supersede new_id ids rows)
  unfolding supersede
  supersede-All new_id ids [] a = tt
  supersede-All new_id ids (m ∷ rows) a =
      (supersede_row-IsForward new_id ids m a.0, supersede-All new_id ids rows a.1)

  supersede_row-IsKept :
      (batch ids : List ℕ) (next_id new_id : ℕ) (m : Memory S)
      → all_in ids batch ≡ true
      → next_id ≤ new_id
      → IsKept batch next_id m (supersede_row new_id ids m)
  supersede_row-IsKept batch ids next_id new_id m a h =
      elim (Bool-cases (has_id ids m.id && is_unset m.superseded_by)) [
        | inl e ↦ rw e (
            inr (
              all_in_has ids batch m.id a (ground (arith, e)),
              (unset m.superseded_by (ground (arith, e)), (new_id, h, refl)),
            ))
        | inr e ↦ rw e (inl refl)
      ]
    where
      unset : (o : Option ℕ) → is_unset o ≡ true → o ≡ none
      unset none e = refl
      unset (some k) e = cc e

  supersede-AreKept :
      (batch ids : List ℕ) (next_id new_id : ℕ) (rows more : List (Memory S))
      → all_in ids batch ≡ true
      → next_id ≤ new_id
      → AreKept batch next_id rows (supersede new_id ids (rows ++ more))
  unfolding supersede
  supersede-AreKept batch ids next_id new_id [] more a h = tt
  supersede-AreKept batch ids next_id new_id (m ∷ rows) more a h = (
    supersede_row-IsKept batch ids next_id new_id m a h,
    supersede-AreKept batch ids next_id new_id rows more a h,
  )

  IsKept-trans :
      (batch : List ℕ) (next_id later_id : ℕ) (m m' m'' : Memory S)
      → next_id ≤ later_id
      → IsKept batch next_id m m'
      → IsKept batch later_id m' m''
      → IsKept batch next_id m m''
  IsKept-trans batch next_id later_id m m' m'' h (inl e) k' =
      elim (subst (λ n. IsKept batch later_id n m'') e k') [
        | inl e' ↦ inl e'
        | inr (in_batch, (unset, (k, le, e'))) ↦
            inr (in_batch, (unset, (k, omega (arith, h, le), e')))
      ]
  IsKept-trans batch next_id later_id m m' m'' h (inr (in_batch, (unset, (k, le, e)))) (inl e') =
      inr (in_batch, (unset, (k, le, e' ∙ e)))
  IsKept-trans batch next_id later_id m m' m'' h (inr (in_batch, (unset, (k, le, e))))
        (inr (in_batch', (unset', rest))) =
      cc (unset', ap (λ (n : Memory S). n.superseded_by) e)

  AreKept-trans :
      (batch : List ℕ) (next_id later_id : ℕ) (rows rows' rows'' : List (Memory S))
      → next_id ≤ later_id
      → AreKept batch next_id rows rows'
      → AreKept batch later_id rows' rows''
      → AreKept batch next_id rows rows''
  AreKept-trans batch next_id later_id [] rows' rows'' h k k' = tt
  AreKept-trans batch next_id later_id (m ∷ rows) [] rows'' h k k' = absurd k
  AreKept-trans batch next_id later_id (m ∷ rows) (m' ∷ rows') [] h k k' = absurd k'
  AreKept-trans batch next_id later_id (m ∷ rows) (m' ∷ rows') (m'' ∷ rows'') h k k' = (
    IsKept-trans batch next_id later_id m m' m'' h k.0 k'.0,
    AreKept-trans batch next_id later_id rows rows' rows'' h k.1 k'.1,
  )

  AreKept-refl :
      (batch : List ℕ) (next_id : ℕ) (rows : List (Memory S)) → AreKept batch next_id rows rows
  AreKept-refl batch next_id [] = tt
  AreKept-refl batch next_id (m ∷ rows) = (inl refl, AreKept-refl batch next_id rows)

  -- The new row is not among those that are superseded.
  supersede-snoc-All :
      (new_id : ℕ) (ids : List ℕ) (rows : List (Memory S)) (n : Memory S)
      → All (IsForward new_id) rows
      → IsForward (suc new_id) (supersede_row new_id ids n)
      → All (IsForward (suc new_id)) (supersede new_id ids (rows ++ n ∷ []))
  unfolding supersede
  supersede-snoc-All new_id ids [] n a f = (f, tt)
  supersede-snoc-All new_id ids (m ∷ rows) n a f =
      (supersede_row-IsForward new_id ids m a.0, supersede-snoc-All new_id ids rows n a.1 f)

has_id_below : (ids : List ℕ) (n : ℕ) → All (λ k. k < n) ids → has_id ids n ≡ false
unfolding has_id
has_id_below [] n a = refl
has_id_below (k ∷ ids) n a = ground (arith, has_id_below ids n a.1, a.0)

not_in :
    (ids batch : List ℕ) (n : ℕ)
    → all_in ids batch ≡ true
    → All (λ k. k < n) batch
    → has_id ids n ≡ false
not_in ids batch n a b = elim (Bool-cases (has_id ids n)) [
  | inl e ↦ cc (all_in_has ids batch n a e, has_id_below batch n b)
  | inr e ↦ e
]

All_up : (ids : List ℕ) (n : ℕ) → All (λ k. k < n) ids → All (λ k. k < suc n) ids
All_up [] n a = tt
All_up (k ∷ ids) n a = (omega (arith, a.0), All_up ids n a.1)

module _ {S : Type 0} (trim_space : List ℕ → List ℕ) (max_or_five : List S → S)
    (batch : List ℕ) where
  -- What holds of a table between the merges, where `start` is the table before them.
  abbrev Between : MemoryTable S → MemoryTable S → Type 0
  Between start t =
      IsTable t
      × (All (λ k. k < t.next_id) batch
          × ((start.next_id ≤ t.next_id) × AreKept batch start.next_id start.rows t.rows))

  merge_rows-Between :
      (start t : MemoryTable S) (m : MemoryMerge)
      → is_merge trim_space max_or_five batch m ≡ true
      → Between start t
      → Between start (merge_rows trim_space max_or_five t m)
  unfolding merge_rows
  merge_rows-Between start t m e (table, (low, (le, kept))) =
      let a : all_in m.source_ids batch ≡ true = ground (arith, e) in
      (
        supersede-snoc-All t.next_id m.source_ids t.rows _ table
            (rw (not_in m.source_ids batch t.next_id a low) (omega arith, tt)),
        (
          All_up batch t.next_id low,
          (
            omega (arith, le),
            AreKept-trans batch start.next_id t.next_id start.rows t.rows _ le kept
                (supersede-AreKept batch m.source_ids t.next_id t.next_id t.rows _ a (omega arith)),
          ),
        ),
      )

  IsForward-up :
      (n : ℕ) (rows : List (Memory S)) → All (IsForward n) rows → All (IsForward (suc n)) rows
  IsForward-up n [] a = tt
  IsForward-up n (m ∷ rows) a =
      ((omega (arith, a.0.0), up m.superseded_by a.0.1), IsForward-up n rows a.1)
    where
      up : (o : Option ℕ) → PointsUp n m.id o → PointsUp (suc n) m.id o
      up none p = tt
      up (some k) p = (p.0, omega (arith, p.1))

  rolled_back-Between :
      (start t : MemoryTable S)
      → Between start t
      → Between start (rolled_back trim_space max_or_five t)
  rolled_back-Between start t (table, (low, (le, kept))) =
      (IsForward-up t.next_id t.rows table, (All_up batch t.next_id low, (omega (arith, le), kept)))

  merges-Between :
      (merged : ℕ) (start t : MemoryTable S) (merges : List (MemoryMerge × MergeEnd))
      → Between start t
      → Between start (apply_memory_merges trim_space max_or_five batch merged t merges).0
  unfolding apply_memory_merges
  merges-Between merged start t [] b = b
  merges-Between merged start t ((m, merge_end) ∷ merges) b =
      step (λ n t'. apply_memory_merges trim_space max_or_five batch n t' merges)
        (λ n t' b'. merges-Between n start t' merges b') (is_merge trim_space max_or_five batch m)
        refl merge_end
    where
      step :
          (rest : ℕ → MemoryTable S → MemoryTable S × ℕ × Bool)
          → ((n : ℕ) (t' : MemoryTable S) → Between start t' → Between start (rest n t').0)
          → (is : Bool) → is_merge trim_space max_or_five batch m ≡ is
          → (e : MergeEnd)
          → Between start
              (if not is then rest merged t else elim e [
                | salience_fails ↦ rest merged t
                | embed_fails ↦ rest merged t
                | begin_fails ↦ (t, merged, true)
                | insert_fails ↦ rest merged t
                | supersede_fails ↦ rest merged (rolled_back trim_space max_or_five t)
                | commit_fails ↦ rest merged (rolled_back trim_space max_or_five t)
                | commits ↦
                    rest (merged + length m.source_ids) (merge_rows trim_space max_or_five t m)
              ]).0
      step rest ih false i e = ih merged t b
      step rest ih true i salience_fails = ih merged t b
      step rest ih true i embed_fails = ih merged t b
      step rest ih true i begin_fails = b
      step rest ih true i insert_fails = ih merged t b
      step rest ih true i supersede_fails = ih merged _ (rolled_back-Between start t b)
      step rest ih true i commit_fails = ih merged _ (rolled_back-Between start t b)
      step rest ih true i commits = ih _ _ (merge_rows-Between start t m i b)

  -- Where the ids of the batch are of older rows, the merges leave a table in which a memory is
  -- superseded only by a newer one, so that no chain of them runs into a circle. The old rows stand
  -- first, in their order, and are as they were, but that those of the batch that were not
  -- superseded may now be, by new memories.
  pub apply_memory_merges-IsTable :
      (merged : ℕ) (t : MemoryTable S) (merges : List (MemoryMerge × MergeEnd))
      → IsTable t
      → All (λ k. k < t.next_id) batch
      → let t' = (apply_memory_merges trim_space max_or_five batch merged t merges).0 in
        IsTable t' × AreKept batch t.next_id t.rows t'.rows
  apply_memory_merges-IsTable merged t merges table low =
      let (table', rest) =
        merges-Between merged t t merges
          (table, (low, (omega arith, AreKept-refl batch t.next_id t.rows))) in
      (table', rest.1.1)
