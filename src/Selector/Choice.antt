-- ===== src/Selector/Choice.antt =====
-- What toolreg/selector.go selects.
use sokratos.Base.{
  ℕ, ◌≡◌, ◌⊎◌, inl, inr, refl, sym, subst, true, false, List, [], ◌∷◌, take, bytes_eq_refl, All,
  Bool-cases, arith,
}
use sokratos.Selector.{
  core_tools, affinity_groups, selects, select_tool, select_all, hit, select_groups, selection,
}

-- Nothing that is selected is lost.
abbrev pub Keeps : List (List ℕ) → List (List ℕ) → Type 0
Keeps selected more = (t : List ℕ) → selects selected t ≡ true → selects more t ≡ true

-- All of the group is selected.
abbrev pub Whole : List (List ℕ) → List (List ℕ) → Type 0
Whole selected group = All (λ t. selects selected t ≡ true) group

select_tool-Keeps :
    (selected : List (List ℕ)) (t : List ℕ) → Keeps selected (select_tool selected t)
unfolding select_tool selects
select_tool-Keeps selected t u h = elim (Bool-cases (selects selected t)) [
  | inl e ↦ rw e h
  | inr e ↦ rw (e, h) (ground arith)
]

select_tool-selects :
    (selected : List (List ℕ)) (t : List ℕ) → selects (select_tool selected t) t ≡ true
unfolding select_tool selects
select_tool-selects selected t = elim (Bool-cases (selects selected t)) [
  | inl e ↦ rw e e
  | inr e ↦ rw (e, bytes_eq_refl t) refl
]

select_all-Keeps : (selected ts : List (List ℕ)) → Keeps selected (select_all selected ts)
unfolding select_all
select_all-Keeps selected [] u h = h
select_all-Keeps selected (t ∷ ts) u h =
    select_all-Keeps (select_tool selected t) ts u (select_tool-Keeps selected t u h)

select_all-Whole : (selected ts : List (List ℕ)) → Whole (select_all selected ts) ts
unfolding select_all
select_all-Whole selected [] = tt
select_all-Whole selected (t ∷ ts) = (
  select_all-Keeps (select_tool selected t) ts t (select_tool-selects selected t),
  select_all-Whole (select_tool selected t) ts,
)

All-Keeps :
    (selected more ts : List (List ℕ)) → Keeps selected more → Whole selected ts → Whole more ts
All-Keeps selected more [] k w = tt
All-Keeps selected more (t ∷ ts) k (h, w) = (k t h, All-Keeps selected more ts k w)

select_groups-Keeps :
    (selected : List (List ℕ)) (groups : List (List (List ℕ)))
    → Keeps selected (select_groups selected groups)
unfolding select_groups
select_groups-Keeps selected [] u h = h
select_groups-Keeps selected (group ∷ groups) u h = elim (Bool-cases (hit selected group)) [
  | inl e ↦ rw e (
      select_groups-Keeps (select_all selected group) groups u
        (select_all-Keeps selected group u h))
  | inr e ↦ rw e (select_groups-Keeps selected groups u h)
]

hit_more :
    (selected more group : List (List ℕ))
    → Keeps selected more
    → hit selected group ≡ true
    → hit more group ≡ true
unfolding hit
hit_more selected more [] k h = h
hit_more selected more (t ∷ group) k h = elim (Bool-cases (selects selected t)) [
  | inl e ↦ rw (k t e) refl
  | inr e ↦ elim (Bool-cases (selects more t)) [
    | inl f ↦ rw f refl
    | inr f ↦ rw f (hit_more selected more group k (rw e at h))
  ]
]

All-map :
    (P Q : List (List ℕ) → Type 0) (groups : List (List (List ℕ)))
    → ((group : List (List ℕ)) → P group → Q group)
    → All P groups
    → All Q groups
All-map P Q [] f a = tt
All-map P Q (g ∷ groups) f (p, a) = (f g p, All-map P Q groups f a)

-- What a larger set does not hit, the smaller one does not.
hit_less :
    (selected more final group : List (List ℕ))
    → Keeps selected more
    → (hit more group ≡ false) ⊎ Whole final group
    → (hit selected group ≡ false) ⊎ Whole final group
hit_less selected more final group k (inr w) = inr w
hit_less selected more final group k (inl n) = elim (Bool-cases (hit selected group)) [
  | inl e ↦ cc (hit_more selected more group k e, n)
  | inr e ↦ inl e
]

hit_step :
    (selected group : List (List ℕ)) (groups : List (List (List ℕ)))
    → hit selected group ≡ true
    → select_groups selected (group ∷ groups) ≡ select_groups (select_all selected group) groups
unfolding select_groups
hit_step selected group groups e = rw e refl

miss_step :
    (selected group : List (List ℕ)) (groups : List (List (List ℕ)))
    → hit selected group ≡ false
    → select_groups selected (group ∷ groups) ≡ select_groups selected groups
unfolding select_groups
miss_step selected group groups e = rw e refl

select_groups-Whole :
    (selected : List (List ℕ)) (groups : List (List (List ℕ)))
    → All
        (λ group. (hit selected group ≡ false) ⊎ Whole (select_groups selected groups) group)
        groups
select_groups-Whole selected [] = tt
select_groups-Whole selected (group ∷ groups) = elim (Bool-cases (hit selected group)) [
  | inl e ↦
      let more = select_all selected group in
      subst (λ final. All (λ g. (hit selected g ≡ false) ⊎ Whole final g) (group ∷ groups))
        (sym (hit_step selected group groups e))
        (
          inr (
              All-Keeps more (select_groups more groups) group (select_groups-Keeps more groups)
                (select_all-Whole selected group)),
          All-map (λ g. (hit more g ≡ false) ⊎ Whole (select_groups more groups) g)
              (λ g. (hit selected g ≡ false) ⊎ Whole (select_groups more groups) g) groups
              (λ g.
                hit_less selected more (select_groups more groups) g
                  (select_all-Keeps selected group))
              (select_groups-Whole more groups),
        )
  | inr e ↦
      subst (λ final. All (λ g. (hit selected g ≡ false) ⊎ Whole final g) (group ∷ groups))
        (sym (miss_step selected group groups e)) (inl e, select_groups-Whole selected groups)
]

-- The tools that rank among the first `k` and the core tools are selected.
pub selection_includes :
    (k : ℕ) (ranked : List (List ℕ))
    → Whole (selection k ranked) (take k ranked) × Whole (selection k ranked) core_tools
unfolding selection
selection_includes k ranked =
    let top = select_all [] (take k ranked) in
    let grouped = select_groups top affinity_groups in
    (
      All-Keeps top (select_all grouped core_tools) (take k ranked)
          (λ t h.
            select_all-Keeps grouped core_tools t (select_groups-Keeps top affinity_groups t h))
          (select_all-Whole [] (take k ranked)),
      select_all-Whole grouped core_tools,
    )

-- If one tool of an affinity group ranks among the first `k`, the whole group is selected.
selection_groups :
    (k : ℕ) (ranked : List (List ℕ))
    → All
        (λ group.
          (hit (select_all [] (take k ranked)) group ≡ false) ⊎ Whole (selection k ranked) group)
        affinity_groups
unfolding selection
selection_groups k ranked =
    let top = select_all [] (take k ranked) in
    let grouped = select_groups top affinity_groups in
    All-map (λ group. (hit top group ≡ false) ⊎ Whole grouped group)
      (λ group. (hit top group ≡ false) ⊎ Whole (select_all grouped core_tools) group)
      affinity_groups
      (λ group d. elim d [
        | inl n ↦ inl n
        | inr w ↦ inr (
            All-Keeps grouped (select_all grouped core_tools) group
              (select_all-Keeps grouped core_tools) w)
      ])
      (select_groups-Whole top affinity_groups)
