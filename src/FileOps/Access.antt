-- ===== src/FileOps/Access.antt =====
-- Which paths tools/file_ops.go lets the LLM touch.
use sokratos.Base.{
  ℕ, ◌≡◌, ◌⊎◌, inl, inr, refl, Bool, true, false, Option, none, some, List, if◌then◌else◌, is_empty,
  Bool-cases, has_prefix,
}
use sokratos.Approval.{ApprovalCache, check, record_key}
use sokratos.Shell.{Paths, expand_tilde}
use sokratos.FileOps.{
  FileOpsConfig, raw_path, resolve_path, answered, check_external_access, resolve_and_check,
}

module _ (paths : Paths) (trim_space dir_of : List ℕ → List ℕ) where
  -- Why a path outside of the workspace may be touched: there is somebody to ask, and the user says
  -- yes now or an approval of its directory has not expired.
  abbrev pub IsGranted : FileOpsConfig → List ℕ → Option Bool → ℕ → Type 0
  IsGranted foc resolved answer now =
      (foc.confirmer ≡ true)
      × ((answer ≡ some true) ⊎ (check foc.approvals (dir_of resolved) now ≡ true))

  abbrev Recorded : FileOpsConfig → List ℕ → Option Bool → ℕ → ApprovalCache → Type 0
  Recorded foc resolved answer later approvals =
      (approvals ≡ foc.approvals)
      ⊎ ((answer ≡ some true) × (approvals ≡ record_key foc.approvals (dir_of resolved) later))

  answered_lem :
      (foc : FileOpsConfig) (resolved : List ℕ) (answer : Option Bool) (later : ℕ)
      → let out = answered paths trim_space dir_of foc.approvals resolved answer later in
        ((out.1 ≡ none) ⊎ ((out.1 ≡ some resolved) × (answer ≡ some true)))
        × Recorded foc resolved answer later out.0
  answered_lem foc resolved none later = (inl refl, inl refl)
  answered_lem foc resolved (some false) later = (inl refl, inl refl)
  answered_lem foc resolved (some true) later = (inr (refl, refl), inr (refl, refl))

  -- What is allowed outside of the workspace.
  check_external_access_lem :
      (foc : FileOpsConfig) (resolved : List ℕ) (answer : Option Bool) (now later : ℕ)
      → let out = check_external_access paths trim_space dir_of foc resolved answer now later in
        ((out.1 ≡ none) ⊎ ((out.1 ≡ some resolved) × IsGranted foc resolved answer now))
        × Recorded foc resolved answer later out.0
  unfolding check_external_access
  check_external_access_lem foc resolved answer now later = elim (Bool-cases foc.confirmer) [
    | inr n ↦ rw n (inl refl, inl refl)
    | inl y ↦ elim (Bool-cases (check foc.approvals (dir_of resolved) now)) [
      | inl e ↦ rw (y, e) (inr (refl, (refl, inr refl)), inl refl)
      | inr e ↦
          let lem = answered_lem foc resolved answer later in
          rw (y, e) (elim lem.0 [ inl n ↦ inl n | inr (s, a) ↦ inr (s, (refl, inl a)) ], lem.1)
    ]
  ]

  abbrev Judged : FileOpsConfig → Option (List ℕ × Bool) → Type 0
  Judged foc none = Unit
  Judged foc (some (abs, in_workspace)) = has_prefix abs foc.workspace_dir ≡ in_workspace

  if-Judged :
      (b : Bool) (foc : FileOpsConfig) (o : Option (List ℕ))
      → Judged foc (
          if b
          then none
          else elim o [ none ↦ none | some abs ↦ some (abs, has_prefix abs foc.workspace_dir) ])
  if-Judged true foc o = tt
  if-Judged false foc none = tt
  if-Judged false foc (some abs) = refl

  resolve_path-Judged :
      (foc : FileOpsConfig) (path : List ℕ)
      → Judged foc (resolve_path paths trim_space dir_of foc.workspace_dir path)
  unfolding resolve_path
  resolve_path-Judged foc path =
      if-Judged (is_empty (trim_space path)) foc
        (paths.abs (raw_path paths trim_space dir_of foc.workspace_dir (expand_tilde paths path)))

  -- The path, resolved, where it may be touched, and the approvals afterwards.
  abbrev pub Checked :
      FileOpsConfig
      → Option (List ℕ × Bool)
      → Option Bool
      → ℕ
      → ℕ
      → ApprovalCache × Option (List ℕ)
      → Type 0
  Checked foc found answer now later out =
      ((out.1 ≡ none)
        ⊎ ((resolved : List ℕ) × (out.1 ≡ some resolved)
            × ((b : Bool) × (found ≡ some (resolved, b)))
            × ((has_prefix resolved foc.workspace_dir ≡ true) ⊎ IsGranted foc resolved answer now)))
      × ((out.0 ≡ foc.approvals)
          ⊎ ((resolved : List ℕ) × (found ≡ some (resolved, false))
              × (answer ≡ some true)
              × (out.0 ≡ record_key foc.approvals (dir_of resolved) later)))

  -- A path is given to a tool only as it was resolved, and only if it begins with the workspace's, or
  -- if there is somebody to ask and the user says yes now or the approvals hold one of its directory
  -- that has not expired. The approvals change only when the user says yes to a path that was not
  -- resolved into the workspace, and then by one of its directory, given at that time.
  pub resolve_and_check_guards :
      (foc : FileOpsConfig) (path : List ℕ) (answer : Option Bool) (now later : ℕ)
      → Checked foc
          (resolve_path paths trim_space dir_of foc.workspace_dir path)
          answer
          now
          later
          (resolve_and_check paths trim_space dir_of foc path answer now later)
  unfolding resolve_and_check
  resolve_and_check_guards foc path answer now later =
      judged (resolve_path paths trim_space dir_of foc.workspace_dir path)
        (resolve_path-Judged foc path)
    where
      judged :
          (o : Option (List ℕ × Bool))
          → Judged foc o
          → Checked foc o answer now later (elim o [
            | none ↦ (foc.approvals, none)
            | some (abs, in_workspace) ↦
                if in_workspace
                then (foc.approvals, some abs)
                else check_external_access paths trim_space dir_of foc abs answer now later
          ])
      judged none j = (inl refl, inl refl)
      judged (some (abs, true)) j = (inr (abs, refl, (true, refl), inl j), inl refl)
      judged (some (abs, false)) j =
          let lem = check_external_access_lem foc abs answer now later in
          (
            elim lem.0 [ inl n ↦ inl n | inr (s, g) ↦ inr (abs, s, (false, refl), inr g) ],
            elim lem.1 [ inl n ↦ inl n | inr (a, r) ↦ inr (abs, refl, a, r) ],
          )
