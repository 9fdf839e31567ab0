-- ===== src/Plan/Steps.antt =====
-- The loop of worktracker/plan_execute.go comes to an end.
use sokratos.Base.{
  ℕ, zero, suc, ◌+◌, ◌≤◌, ◌<◌, ◌≡◌, ◌⊎◌, inl, inr, refl, ap, sym, subst, ◌∙◌, Bool, true, false,
  ◌&&◌, Option, none, some, List, [], ◌∷◌, ◌++◌, length, take, Bool-cases, Option-cases, arith,
  length-snoc,
}
use sokratos.Plan.{
  PlanStep, StepResult, Reply, done, failed, at_most, max_plan_steps, max_replan_steps,
  decompose_plan, replan_remaining, Server, Progress, record_step, should_replan, following,
  run_step, run_steps, execute_steps, is_complex_step,
}

-- The results are numbered in order, from `n` on.
abbrev pub Numbered : ℕ → List StepResult → Type 0
Numbered n [] = Unit
Numbered n (r ∷ rs) = (r.number ≡ n) × Numbered (suc n) rs

Numbered-snoc :
    (n : ℕ) (rs : List StepResult) (r : StepResult)
    → Numbered n rs
    → r.number ≡ n + length rs
    → Numbered n (rs ++ r ∷ [])
Numbered-snoc n [] r h e = (omega arith, tt)
Numbered-snoc n (q ∷ rs) r (m, h) e = (m, Numbered-snoc (suc n) rs r h (omega arith))

-- What a run may still add: steps of a replacement, while there has been none.
abbrev pub spare : Bool → ℕ → ℕ
spare true n = 0
spare false n = n

length-at_most : (n : ℕ) (steps new : List PlanStep) → at_most n steps ≡ some new → length new ≤ n
unfolding at_most
length-at_most n [] new h = cc h
length-at_most n (s ∷ steps) new h = subst (λ xs. length xs ≤ n) (same h) (shorter n (s ∷ steps))
  where
    same : {xs ys : List PlanStep} → some xs ≡ some ys → xs ≡ ys
    same {xs} h = ap (λ (o : Option (List PlanStep)). elim o [ none ↦ xs | some zs ↦ zs ]) h

    shorter : (n : ℕ) (xs : List PlanStep) → length (take n xs) ≤ n
    shorter zero xs = omega arith
    shorter (suc n) [] = omega arith
    shorter (suc n) (x ∷ xs) = omega (arith, shorter n xs)

length-replan_remaining :
    (answer : Option (List PlanStep)) (new : List PlanStep)
    → replan_remaining answer ≡ some new
    → length new ≤ max_replan_steps
unfolding replan_remaining
length-replan_remaining none new h = cc h
length-replan_remaining (some steps) new h = length-at_most max_replan_steps steps new h

length-decompose_plan :
    (answer : Option (List PlanStep)) (steps : List PlanStep)
    → decompose_plan answer ≡ some steps
    → length steps ≤ max_plan_steps
unfolding decompose_plan
length-decompose_plan none steps h = cc h
length-decompose_plan (some answer) steps h = length-at_most max_plan_steps answer steps h

module _ (srv : Server) where
  -- The steps that follow are those there were, or a replacement, at most once.
  abbrev Follows : Progress → List PlanStep → Progress × List PlanStep → Type 0
  Follows p rest (q, next) =
      (q.results ≡ p.results)
      × (((next ≡ rest) × (q.replanned ≡ p.replanned))
          ⊎ ((p.replanned ≡ false) × (0 < length rest) × (length next ≤ 4) × (q.replanned ≡ true)))

  replan_cases :
      (p : Progress) (reply : Reply) (n : ℕ)
      → should_replan srv p reply n ≡ true
      → (p.replanned ≡ false) × (0 < n)
  unfolding should_replan
  replan_cases p reply n h = ground arith

  following-Follows :
      (p : Progress) (i : ℕ) (reply : Reply) (rest : List PlanStep)
      → Follows p rest (following srv p i reply rest)
  unfolding following
  following-Follows p i reply rest = elim (Bool-cases (should_replan srv p reply (length rest))) [
    | inl e ↦ elim (Option-cases (replan_remaining (srv.replan (i + 1) p.pad rest))) [
      | inl f ↦ rw (following, e, f) (refl, inl (refl, refl))
      | inr (new, f) ↦
          let (once, left) = replan_cases p reply (length rest) e in
          rw (following, e, f)
            (
              refl,
              inr (once, left, length-replan_remaining (srv.replan (i + 1) p.pad rest) new f, refl),
            )
    ]
    | inr e ↦ rw (following, e) (refl, inl (refl, refl))
  ]

  -- One more result, with the number of the step.
  abbrev Recorded : Progress → ℕ → Progress → Type 0
  Recorded p i q =
      ((r : StepResult) × (q.results ≡ p.results ++ r ∷ []) × (r.number ≡ i + 1))
      × (q.replanned ≡ p.replanned)

  record_step-Recorded :
      (p : Progress) (i : ℕ) (s : PlanStep) (reply : Reply)
      → Recorded p i (record_step srv p i s reply)
  unfolding record_step
  record_step-Recorded p i s (done text) = ((_, refl, refl), refl)
  record_step-Recorded p i s (failed err) = ((_, refl, refl), refl)

  -- The loop returns, with results that are numbered from 1, at most `n` of them.
  abbrev pub Returns : ℕ → Option (List StepResult) → Type 0
  Returns n none = ⊥
  Returns n (some rs) = Numbered 1 rs × (length rs ≤ n)

  Returns-le : (m n : ℕ) (o : Option (List StepResult)) → m ≤ n → Returns m o → Returns n o
  Returns-le m n none le h = h
  Returns-le m n (some rs) le (h, l) = (h, omega arith)

  -- The results before index `i`.
  abbrev UpTo : Progress → ℕ → Type 0
  UpTo p i = Numbered 1 p.results × (length p.results ≡ i)

  run_step_lem :
      (p : Progress) (i : ℕ) (s : PlanStep) (rest : List PlanStep)
      → UpTo p i
      → let (q, next) = run_step srv p i s rest in
        UpTo q (i + 1)
        × (length next + spare q.replanned 3 ≤ length rest + spare p.replanned 3)
        × (length next + spare q.replanned 4 ≤ length rest + spare p.replanned 4)
  unfolding run_step
  run_step_lem p i s rest h =
      let reply =
        srv.exec (i + 1) (is_complex_step srv.to_lower s && srv.has_deep_thinker) s p.pad in
      combine (record_step srv p i s reply)
        (following srv (record_step srv p i s reply) i reply rest)
        (record_step-Recorded p i s reply)
        (following-Follows (record_step srv p i s reply) i reply rest) h
    where
      combine :
          (q : Progress) (out : Progress × List PlanStep)
          → Recorded p i q
          → Follows q rest out
          → UpTo p i
          → UpTo out.0 (i + 1)
            × (length out.1 + spare out.0.replanned 3 ≤ length rest + spare p.replanned 3)
            × (length out.1 + spare out.0.replanned 4 ≤ length rest + spare p.replanned 4)
      combine q out ((r, e, num), fl) (same, cases) (h, len) =
          let up =
            subst (λ rs. Numbered 1 rs × (length rs ≡ i + 1)) (sym (same ∙ e))
              (
                Numbered-snoc 1 p.results r h (omega arith),
                omega (arith, length-snoc p.results r),
              ) in
          elim cases [
            | inl (nx, rp) ↦ (up, rw (nx, rp, fl) (omega arith), rw (nx, rp, fl) (omega arith))
            | inr (once, left, four, tr) ↦ (
              up,
              rw (tr, sym fl ∙ once) (omega (arith, left, four)),
              rw (tr, sym fl ∙ once) (omega (arith, left, four)),
            )
          ]

  run_steps-Returns :
      (fuel : ℕ) (p : Progress) (i : ℕ) (steps : List PlanStep)
      → UpTo p i
      → length steps + spare p.replanned 4 ≤ fuel
      → Returns (i + length steps + spare p.replanned 3) (run_steps srv fuel p i steps)
  unfolding run_steps
  run_steps-Returns fuel p i [] (h, len) enough = (h, omega arith)
  run_steps-Returns zero p i (s ∷ rest) h enough = absurd (omega arith)
  run_steps-Returns (suc fuel) p i (s ∷ rest) (h, len) enough =
      elim (Option-cases (srv.cancelled_at (i + 1))) [
        | inl e ↦
            let (up, three, four) = run_step_lem p i s rest (h, len) in
            rw (run_steps, e)
              (Returns-le
                (i
                  + 1
                  + length (run_step srv p i s rest).1
                  + spare (run_step srv p i s rest).0.replanned 3)
                (i + length (s ∷ rest) + spare p.replanned 3)
                (run_steps srv fuel (run_step srv p i s rest).0 (i + 1) (run_step srv p i s rest).1)
                (omega (arith, three))
                (run_steps-Returns fuel (run_step srv p i s rest).0 (i + 1)
                  (run_step srv p i s rest).1 up (omega (arith, four))))
        | inr (err, e) ↦
            rw (run_steps, e)
              (Numbered-snoc 1 p.results _ h (omega arith), omega (arith, length-snoc p.results _))
      ]

  -- The plan of an answer has at most six steps, and the loop over them comes to an end, whatever the
  -- servers answer and whenever the context ends, although the steps that are left may be replaced:
  -- the results are numbered from 1 on, and there are at most three more than steps.
  pub execute_steps-Returns :
      (answer : Option (List PlanStep)) (steps : List PlanStep)
      → decompose_plan answer ≡ some steps
      → (length steps ≤ max_plan_steps) × Returns (length steps + 3) (execute_steps srv steps)
  unfolding execute_steps
  execute_steps-Returns answer steps h = (
    length-decompose_plan answer steps h,
    Returns-le (0 + length steps + 3) (length steps + 3) (execute_steps srv steps) (omega arith) (
        run_steps-Returns (length steps + 4)
          (record { results = []; pad = []; replanned = false; consecutive_failures = 0 }) 0 steps
          (tt, refl) (omega arith)),
  )
