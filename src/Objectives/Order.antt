-- ===== src/Objectives/Order.antt =====
-- The order in which objectives/objectives.go lists the rows, and what an update leaves.
use sokratos.Base.{
  ℕ, ◌≡◌, ◌⊎◌, inl, inr, refl, ap, ◌∙◌, Bool, true, false, ◌&&◌, ◌||◌, some, List, [], ◌∷◌, ltb,
  leb, ◌==◌, Elem, All, Bool-cases, arith,
}
use sokratos.Objectives.{
  Objective, is_active, rank, comes_first, insert_row, order_rows, rows_where, list_active, get_row,
  update_rows, ObjectiveTable,
}

pub comes_first_refl : (g : Objective) → comes_first g g ≡ true
comes_first_refl g = numbers (rank g.priority) g.updated_at
  where
    numbers : (r u : ℕ) → (ltb r r || r == r && leb u u) ≡ true
    numbers r u = ground arith

comes_first_trans :
    (a b c : Objective) → comes_first a b ≡ true → comes_first b c ≡ true → comes_first a c ≡ true
comes_first_trans a b c h k =
    numbers (rank a.priority) (rank b.priority) (rank c.priority) a.updated_at b.updated_at
      c.updated_at h k
  where
    numbers :
        (r s t u v w : ℕ)
        → (ltb r s || r == s && leb v u) ≡ true
        → (ltb s t || s == t && leb w v) ≡ true
        → (ltb r t || r == t && leb w u) ≡ true
    numbers r s t u v w h k = ground arith

comes_first_total : (a b : Objective) → comes_first a b ≡ false → comes_first b a ≡ true
comes_first_total a b h = numbers (rank a.priority) (rank b.priority) a.updated_at b.updated_at h
  where
    numbers :
        (r s u v : ℕ)
        → (ltb r s || r == s && leb v u) ≡ false
        → (ltb s r || s == r && leb u v) ≡ true
    numbers r s u v h = ground arith

-- Every row comes before those after it.
abbrev pub Sorted : List Objective → Type 0
Sorted [] = Unit
Sorted (g ∷ rows) = All (λ h. comes_first g h ≡ true) rows × Sorted rows

module _ (P : Objective → Type 0) where
  insert_row-All :
      (g : Objective) (rows : List Objective) → P g → All P rows → All P (insert_row g rows)
  unfolding insert_row
  insert_row-All g [] p a = (p, tt)
  insert_row-All g (h ∷ rows) p a = elim (Bool-cases (comes_first g h)) [
    | inl e ↦ rw e (p, a)
    | inr e ↦ rw e (a.0, insert_row-All g rows p a.1)
  ]

  All-insert_row :
      (g : Objective) (rows : List Objective) → All P (insert_row g rows) → P g × All P rows
  unfolding insert_row
  All-insert_row g [] = λ a. a
  All-insert_row g (h ∷ rows) = elim (Bool-cases (comes_first g h)) [
    | inl e ↦ rw e (λ a. a)
    | inr e ↦ rw e (λ a. let b = All-insert_row g rows a.1 in (b.0, (a.0, b.1)))
  ]

  All-order_rows : (rows : List Objective) → All P (order_rows rows) → All P rows
  unfolding order_rows
  All-order_rows [] a = tt
  All-order_rows (g ∷ rows) a =
      let b = All-insert_row g (order_rows rows) a in (b.0, All-order_rows rows b.1)

  All-rows_where :
      (p : Objective → Bool) (rows : List Objective)
      → All P (rows_where p rows)
      → All (λ h. (p h ≡ false) ⊎ P h) rows
  unfolding rows_where
  All-rows_where p [] = λ a. tt
  All-rows_where p (g ∷ rows) = elim (Bool-cases (p g)) [
    | inl e ↦ rw e (λ a. (inr a.0, All-rows_where p rows a.1))
    | inr e ↦ rw e (λ a. (inl refl, All-rows_where p rows a))
  ]

  pub All-list_active :
      (t : ObjectiveTable)
      → All P (list_active t)
      → All (λ h. (is_active h.status ≡ false) ⊎ P h) t.rows
  unfolding list_active
  All-list_active t a =
      All-rows_where (λ g. is_active g.status) t.rows
        (All-order_rows (rows_where (λ g. is_active g.status) t.rows) a)

insert_row-Sorted :
    (g : Objective) (rows : List Objective) → Sorted rows → Sorted (insert_row g rows)
unfolding insert_row
insert_row-Sorted g [] s = (tt, tt)
insert_row-Sorted g (h ∷ rows) s = elim (Bool-cases (comes_first g h)) [
  | inl e ↦ rw e ((e, All-map g h e rows s.0), s)
  | inr e ↦ rw e (
    insert_row-All (λ k. comes_first h k ≡ true) g rows (comes_first_total g h e) s.0,
    insert_row-Sorted g rows s.1,
  )
]
  where
    All-map :
        (g h : Objective)
        → comes_first g h ≡ true
        → (rows : List Objective) → All (λ k. comes_first h k ≡ true) rows
        → All (λ k. comes_first g k ≡ true) rows
    All-map g h e [] a = tt
    All-map g h e (k ∷ rows) a = (comes_first_trans g h k e a.0, All-map g h e rows a.1)

order_rows-Sorted : (rows : List Objective) → Sorted (order_rows rows)
unfolding order_rows
order_rows-Sorted [] = tt
order_rows-Sorted (g ∷ rows) = insert_row-Sorted g (order_rows rows) (order_rows-Sorted rows)

pub list_active-Sorted : (t : ObjectiveTable) → Sorted (list_active t)
unfolding list_active
list_active-Sorted t = order_rows-Sorted (rows_where (λ g. is_active g.status) t.rows)

insert_row-Elem :
    (g k : Objective) (rows : List Objective) → Elem k (insert_row g rows) → Elem k (g ∷ rows)
unfolding insert_row
insert_row-Elem g k [] = λ m. m
insert_row-Elem g k (h ∷ rows) = elim (Bool-cases (comes_first g h)) [
  | inl e ↦ rw e (λ m. m)
  | inr e ↦ rw e (λ m. elim m [
    | inl same ↦ inr (inl same)
    | inr later ↦ elim (insert_row-Elem g k rows later) [
      | inl same ↦ inl same
      | inr old ↦ inr (inr old)
    ]
  ])
]

order_rows-Elem : (k : Objective) (rows : List Objective) → Elem k (order_rows rows) → Elem k rows
unfolding order_rows
order_rows-Elem k [] m = m
order_rows-Elem k (g ∷ rows) m = elim (insert_row-Elem g k (order_rows rows) m) [
  | inl same ↦ inl same
  | inr old ↦ inr (order_rows-Elem k rows old)
]

rows_where-Elem :
    (p : Objective → Bool) (k : Objective) (rows : List Objective)
    → Elem k (rows_where p rows)
    → Elem k rows × (p k ≡ true)
unfolding rows_where
rows_where-Elem p k [] = λ m. absurd m
rows_where-Elem p k (g ∷ rows) = elim (Bool-cases (p g)) [
  | inl e ↦ rw e (λ m. elim m [
    | inl same ↦ (inl same, ap p same ∙ e)
    | inr later ↦ let (old, yes_p) = rows_where-Elem p k rows later in (inr old, yes_p)
  ])
  | inr e ↦ rw e (λ m. let (old, yes_p) = rows_where-Elem p k rows m in (inr old, yes_p))
]

pub list_active-Elem :
    (k : Objective) (t : ObjectiveTable)
    → Elem k (list_active t)
    → Elem k t.rows × (is_active k.status ≡ true)
unfolding list_active
list_active-Elem k t m = rows_where-Elem (λ g. is_active g.status) k t.rows (order_rows-Elem k _ m)

pub get_row-update_rows :
    (id : ℕ) (change : Objective → Objective)
    → ((g : Objective) → (change g).id ≡ g.id)
    → (rows : List Objective) (g : Objective) → get_row rows id ≡ some g
    → get_row (update_rows id change rows) id ≡ some (change g)
unfolding get_row update_rows
get_row-update_rows id change keeps [] g = λ e. cc e
get_row-update_rows id change keeps (h ∷ rows) g = elim (Bool-cases (h.id == id)) [
  | inl same ↦
      let kept : ((change h).id == id) ≡ true = ap (λ n. n == id) (keeps h) ∙ same in
      rw (same, kept) (λ e. cc e)
  | inr other ↦ rw (other, other) (get_row-update_rows id change keeps rows g)
]
