-- ===== src/Shell/Guards.antt =====
-- What tools/shell.go checks before a command runs.
use sokratos.Base.{
  ℕ, ◌≤◌, ◌≡◌, ◌⊎◌, inl, inr, refl, sym, subst, ◌∙◌, Bool, true, false, Option, none, some, List,
  [], ◌∷◌, ltb, if◌then◌else◌, All, Bool-cases, Option-cases, arith, has_prefix,
}
use sokratos.Shell.{
  ShellConfig, is_allowed, resolved_workspace_only, resolved_timeout, longest_timeout,
  any_workspace_only, first_refused, Paths, workspace_dir_of, resolve_work_dir, ShellRun, Prepared,
  not_allowed, runs, in_dir, prepare, extract_binaries,
}

-- No binary is refused, so all are in the allowlist; or one is refused, which is not.
first_refused-All :
    (cfg : ShellConfig) (binaries : List (List ℕ))
    → (first_refused cfg binaries ≡ none)
    → All (λ b. is_allowed cfg b ≡ true) binaries
unfolding first_refused
first_refused-All cfg [] h = tt
first_refused-All cfg (b ∷ binaries) h = elim (Bool-cases (is_allowed cfg b)) [
  | inl e ↦ (e, first_refused-All cfg binaries (rw e at h))
  | inr e ↦ cc (rw e at h)
]

le_trans : (a b c : ℕ) → a ≤ b → b ≤ c → a ≤ c
le_trans a b c p q = omega arith

module _ (parse_duration : List ℕ → Option ℕ) (cfg : ShellConfig) where
  longer : ℕ → List ℕ → ℕ
  longer timeout b =
      if ltb timeout (resolved_timeout parse_duration cfg b)
      then resolved_timeout parse_duration cfg b
      else timeout

  le-longer : (t u : ℕ) → (t ≤ (if ltb t u then u else t)) × (u ≤ (if ltb t u then u else t))
  le-longer t u = (ground arith, ground arith)

  longest_timeout-All :
      (timeout : ℕ) (binaries : List (List ℕ))
      → (timeout ≤ longest_timeout parse_duration cfg timeout binaries)
        × All
            (λ b.
              resolved_timeout parse_duration cfg b
              ≤ longest_timeout parse_duration cfg timeout binaries)
            binaries
  unfolding longest_timeout longer
  longest_timeout-All timeout [] = (omega arith, tt)
  longest_timeout-All timeout (b ∷ binaries) =
      let step = le-longer timeout (resolved_timeout parse_duration cfg b) in
      let next = longest_timeout-All (longer timeout b) binaries in
      (
        le_trans timeout (longer timeout b)
            (longest_timeout parse_duration cfg (longer timeout b) binaries) step.0 next.0,
        (
          le_trans (resolved_timeout parse_duration cfg b) (longer timeout b)
              (longest_timeout parse_duration cfg (longer timeout b) binaries) step.1 next.0,
          next.1,
        ),
      )

any_workspace_only_mono :
    (cfg : ShellConfig) (binaries : List (List ℕ)) → any_workspace_only cfg true binaries ≡ true
unfolding any_workspace_only
any_workspace_only_mono cfg [] = refl
any_workspace_only_mono cfg (b ∷ binaries) = elim (Bool-cases (resolved_workspace_only cfg b)) [
  | inl e ↦ rw (any_workspace_only, e) (any_workspace_only_mono cfg binaries)
  | inr e ↦ rw (any_workspace_only, e) (any_workspace_only_mono cfg binaries)
]

any_workspace_only-All :
    (cfg : ShellConfig) (ws : Bool) (binaries : List (List ℕ))
    → any_workspace_only cfg ws binaries ≡ false
    → (ws ≡ false) × All (λ b. resolved_workspace_only cfg b ≡ false) binaries
unfolding any_workspace_only
any_workspace_only-All cfg true binaries h = cc (h, any_workspace_only_mono cfg binaries)
any_workspace_only-All cfg false [] h = (refl, tt)
any_workspace_only-All cfg false (b ∷ binaries) h =
    elim (Bool-cases (resolved_workspace_only cfg b)) [
      | inl e ↦ cc (rw e at h, any_workspace_only_mono cfg binaries)
      | inr e ↦ (refl, (e, (any_workspace_only-All cfg false binaries (rw e at h)).1))
    ]

module _ (parse_duration : List ℕ → Option ℕ) (paths : Paths) (workspace_dir : List ℕ)
    (cfg : ShellConfig) where
  Inside : Bool → Option (List ℕ) → Type 0
  Inside ws none = Unit
  Inside ws (some dir) = (ws ≡ false) ⊎ (has_prefix dir workspace_dir ≡ true)

  checked : List ℕ → Option (List ℕ)
  checked dir = if has_prefix dir workspace_dir then some dir else none

  checked-Inside : (dir : List ℕ) → Inside true (checked dir)
  unfolding checked Inside
  checked-Inside dir = elim (Bool-cases (has_prefix dir workspace_dir)) [
    | inl e ↦ subst (Inside true) (sym (inside e)) (inr e)
    | inr e ↦ subst (Inside true) (sym (outside e)) tt
  ]
    where
      inside : has_prefix dir workspace_dir ≡ true → checked dir ≡ some dir
      inside e = rw (checked, e) refl

      outside : has_prefix dir workspace_dir ≡ false → checked dir ≡ none
      outside e = rw (checked, e) refl

  asked-Inside :
      (o : Option (List ℕ)) → Inside true (elim o [ none ↦ none | some dir ↦ checked dir ])
  unfolding Inside
  asked-Inside none = tt
  asked-Inside (some dir) = checked-Inside dir

  other-Inside : (o : Option (List ℕ)) → Inside false o
  unfolding Inside
  other-Inside none = tt
  other-Inside (some dir) = inl refl

  -- The directory of a workspace-only command is in the workspace.
  resolve_work_dir-Inside :
      (ws : Bool) (working_dir : List ℕ)
      → Inside ws (resolve_work_dir paths workspace_dir ws working_dir)
  unfolding resolve_work_dir checked
  resolve_work_dir-Inside true working_dir =
      asked-Inside (paths.abs (workspace_dir_of paths workspace_dir working_dir))
  resolve_work_dir-Inside false working_dir =
      other-Inside (resolve_work_dir paths workspace_dir false working_dir)

  Guarded : List ℕ → List (List ℕ) → Prepared → Type 0
  Guarded command binaries (runs r) =
      (r.command ≡ command)
      × ((All (λ b. is_allowed cfg b ≡ true) binaries)
          × ((All (λ b. resolved_timeout parse_duration cfg b ≤ r.timeout) binaries)
              × ((All (λ b. resolved_workspace_only cfg b ≡ false) binaries)
                  ⊎ (has_prefix r.dir workspace_dir ≡ true))))
  Guarded command binaries _ = Unit

  free_or_inside :
      (ws : Bool) (binaries : List (List ℕ)) (b dir : List ℕ)
      → any_workspace_only cfg (resolved_workspace_only cfg b) binaries ≡ ws
      → (ws ≡ false) ⊎ (has_prefix dir workspace_dir ≡ true)
      → (All (λ b. resolved_workspace_only cfg b ≡ false) (b ∷ binaries))
        ⊎ (has_prefix dir workspace_dir ≡ true)
  free_or_inside ws binaries b dir h (inr p) = inr p
  free_or_inside ws binaries b dir h (inl p) =
      inl (any_workspace_only-All cfg (resolved_workspace_only cfg b) binaries (h ∙ p))

  in_dir-Guarded :
      (command working_dir b : List ℕ) (binaries : List (List ℕ)) (ws : Bool) (o : Option (List ℕ))
      → All (λ b. is_allowed cfg b ≡ true) (b ∷ binaries)
      → any_workspace_only cfg (resolved_workspace_only cfg b) binaries ≡ ws
      → Inside ws o
      → Guarded command (b ∷ binaries) (
          in_dir parse_duration paths workspace_dir cfg command working_dir
            (longest_timeout parse_duration cfg (resolved_timeout parse_duration cfg b) binaries)
            o)
  unfolding Inside Guarded
  in_dir-Guarded command working_dir b binaries ws none allowed h inside = tt
  in_dir-Guarded command working_dir b binaries ws (some dir) allowed h inside = (
    refl,
    (
      allowed,
      (
        longest_timeout-All parse_duration cfg (resolved_timeout parse_duration cfg b) binaries,
        free_or_inside ws binaries b dir h inside,
      ),
    ),
  )

  prepare-Guarded :
      (command working_dir : List ℕ) (binaries : List (List ℕ))
      → Guarded command binaries
          (prepare parse_duration paths workspace_dir cfg command working_dir binaries)
  unfolding Guarded prepare
  prepare-Guarded command working_dir [] = tt
  prepare-Guarded command working_dir (b ∷ binaries) =
      elim (Option-cases (first_refused cfg (b ∷ binaries))) [
        | inl e ↦ subst (Guarded command (b ∷ binaries)) (sym (allowed e)) (
            in_dir-Guarded command working_dir b binaries
              (any_workspace_only cfg (resolved_workspace_only cfg b) binaries)
              (resolve_work_dir paths workspace_dir
                (any_workspace_only cfg (resolved_workspace_only cfg b) binaries) working_dir)
              (first_refused-All cfg (b ∷ binaries) e) refl
              (resolve_work_dir-Inside
                (any_workspace_only cfg (resolved_workspace_only cfg b) binaries) working_dir))
        | inr (x, e) ↦ subst (Guarded command (b ∷ binaries)) (sym (refused x e)) tt
      ]
    where
      refused :
          (x : List ℕ)
          → first_refused cfg (b ∷ binaries) ≡ some x
          → prepare parse_duration paths workspace_dir cfg command working_dir (b ∷ binaries)
            ≡ not_allowed x
      refused x e = rw (prepare, e) refl

      allowed :
          first_refused cfg (b ∷ binaries) ≡ none
          → prepare parse_duration paths workspace_dir cfg command working_dir (b ∷ binaries)
            ≡ in_dir parse_duration paths workspace_dir cfg command working_dir
                (longest_timeout parse_duration cfg
                  (resolved_timeout parse_duration cfg b)
                  binaries)
                (resolve_work_dir paths workspace_dir
                  (any_workspace_only cfg (resolved_workspace_only cfg b) binaries)
                  working_dir)
      allowed e = rw (prepare, e) refl

  -- Where a command runs, it is the one that was asked for, each binary that was found in it is in
  -- the allowlist, it may take as long as any of them may, and its directory begins with the
  -- workspace's unless none of them is kept to the workspace.
  pub prepare_guards :
      (trim_space : List ℕ → List ℕ) (fields : List ℕ → List (List ℕ)) (base : List ℕ → List ℕ)
      (command working_dir : List ℕ) (r : ShellRun)
      → prepare parse_duration paths workspace_dir cfg command working_dir
          (extract_binaries trim_space fields base command)
        ≡ runs r
      → let binaries = extract_binaries trim_space fields base command in
        (r.command ≡ command)
        × ((All (λ b. is_allowed cfg b ≡ true) binaries)
            × ((All (λ b. resolved_timeout parse_duration cfg b ≤ r.timeout) binaries)
                × ((All (λ b. resolved_workspace_only cfg b ≡ false) binaries)
                    ⊎ (has_prefix r.dir workspace_dir ≡ true))))
  unfolding Guarded
  prepare_guards trim_space fields base command working_dir r h =
      subst (Guarded command (extract_binaries trim_space fields base command)) h
        (prepare-Guarded command working_dir (extract_binaries trim_space fields base command))
