-- ===== src/FileOps.antt =====
-- tools/file_ops.go: the files that the LLM may read, write and patch.
-- The files are an association list of paths and contents; what the system refuses, the functions on
-- paths, the match of a pattern and the printing of a line are arguments. A temporary file is gone
-- after each write, so it is left out, and so are the directories that a write creates.
pub mod Access
pub mod Patch
use sokratos.Base.{
  ℕ, zero, suc, ◌+◌, ◌-◌, ◌*◌, ◌/◌, ◌%◌, ◌^◌, ◌≤◌, ◌<◌, ◌≡◌, ◌≢◌, ◌↔◌, ◌⊎◌, inl, inr, refl, ap, sym,
  subst, ◌∙◌, Bool, true, false, not, ◌&&◌, ◌||◌, Option, none, some, List, [], ◌∷◌, ◌++◌, ltb, leb,
  ◌==◌, if◌then◌else◌, length, take, drop, get_elem?, is_empty, bytes, bytes_eq, bytes_eq_refl,
  bytes_eq_sound, ℤ, pos, negsuc, positive_or, Elem, All, Bool-cases, Option-cases, arith,
  length-append, has_prefix, length-snoc, length-take-le, length-drop,
}
use sokratos.Approval.{ApprovalCache, check, record_key}
use sokratos.Registry.{lookup, assign}
use sokratos.Shell.{Paths, expand_tilde, before_first}

abbrev pub Files : Type 0
Files = List (List ℕ × List ℕ)

-- What keeps `atomicWriteFile` from the end.
pub data WriteEnd : Type 0 where
  not_created not_written not_closed not_renamed written : WriteEnd

abbrev pub is_written : WriteEnd → Bool
is_written written = true
is_written _ = false

unfoldable pub atomic_write_file : Files → List ℕ → List ℕ → WriteEnd → Files × Bool
unfolding assign
atomic_write_file files path content written = (assign files path content, true)
atomic_write_file files path content _ = (files, false)

abbrev pub max_read_file_size : ℕ
max_read_file_size = 50 * 1024

abbrev pub max_list_entries : ℕ
max_list_entries = 500

-- `confirmer` says whether there is one.
pub record FileOpsConfig : Type 0 where
  pub workspace_dir : List ℕ
  pub confirmer : Bool
  pub approvals : ApprovalCache

module _ (paths : Paths) (trim_space dir_of : List ℕ → List ℕ) where
  abbrev pub raw_path : List ℕ → List ℕ → List ℕ
  raw_path workspace_dir path =
      if has_prefix path (bytes "/") then paths.clean path else paths.join workspace_dir path

  -- The path, and whether it lies in the workspace.
  unfoldable pub resolve_path : List ℕ → List ℕ → Option (List ℕ × Bool)
  unfolding expand_tilde
  resolve_path workspace_dir path =
      if is_empty (trim_space path)
      then none
      else elim (paths.abs (raw_path workspace_dir (expand_tilde paths path))) [
        | none ↦ none
        | some abs ↦ some (abs, has_prefix abs workspace_dir)
      ]

  -- What the user answers: an error, no, or yes. `later` is when.
  abbrev pub answered : ApprovalCache → List ℕ → Option Bool → ℕ → ApprovalCache × Option (List ℕ)
  answered approvals resolved none later = (approvals, none)
  answered approvals resolved (some false) later = (approvals, none)
  answered approvals resolved (some true) later =
      (record_key approvals (dir_of resolved) later, some resolved)

  unfoldable pub check_external_access :
      FileOpsConfig → List ℕ → Option Bool → ℕ → ℕ → ApprovalCache × Option (List ℕ)
  check_external_access foc resolved answer now later =
      if not foc.confirmer
      then (foc.approvals, none)
      else if check foc.approvals (dir_of resolved) now
      then (foc.approvals, some resolved)
      else answered foc.approvals resolved answer later

  unfoldable pub resolve_and_check :
      FileOpsConfig → List ℕ → Option Bool → ℕ → ℕ → ApprovalCache × Option (List ℕ)
  unfolding resolve_path check_external_access
  resolve_and_check foc path answer now later = elim (resolve_path foc.workspace_dir path) [
    | none ↦ (foc.approvals, none)
    | some (resolved, in_workspace) ↦
        if in_workspace
        then (foc.approvals, some resolved)
        else check_external_access foc resolved answer now later
  ]

-- What reading a path gives.
pub data Opened : Type 0 where
  missing no_permission read_failed : Opened
  content : List ℕ → Opened

-- `refused` says which paths the system does not let the program read, and why.
unfoldable pub read_path : Files → (List ℕ → Option Opened) → List ℕ → Opened
unfolding lookup
read_path files refused path = elim (refused path) [
  | some o ↦ o
  | none ↦ elim (lookup files path) [ none ↦ missing | some s ↦ content s ]
]

-- `strings.Split(s, "\n")`.
unfoldable pub split_lines : List ℕ → List (List ℕ)
split_lines [] = [] ∷ []
split_lines (c ∷ s) = let rest = split_lines s in if c == 10 then [] ∷ rest else before_first c rest

abbrev pub end_line_of : ℕ → ℕ → ℤ → ℕ
end_line_of lines start_line (pos (suc limit)) =
    if ltb lines (start_line - 1 + suc limit) then lines else start_line - 1 + suc limit
end_line_of lines start_line _ = lines

pub data ReadAnswer : Type 0 where
  too_large : ℕ → ReadAnswer
  past_end : ℕ → ℕ → ReadAnswer
  shown : List ℕ → ReadAnswer

module _ (print_line : ℕ → List ℕ → List ℕ) where
  -- The lines from index `i` on, `n` of them.
  unfoldable pub numbered : ℕ → ℕ → List (List ℕ) → List ℕ
  numbered zero i lines = []
  numbered (suc n) i [] = []
  numbered (suc n) i (line ∷ lines) = print_line (i + 1) line ++ numbered n (i + 1) lines

  abbrev pub cut_shown : List ℕ → List ℕ
  cut_shown result =
      if ltb max_read_file_size (length result)
      then take max_read_file_size result ++ (10 ∷ bytes "... (truncated)")
      else result

  abbrev pub from_line : List (List ℕ) → ℕ → ℤ → ReadAnswer
  from_line lines start_line limit =
      if ltb (length lines) start_line
      then past_end start_line (length lines)
      else shown (
          cut_shown (
            numbered (end_line_of (length lines) start_line limit - (start_line - 1))
              (start_line - 1) (drop (start_line - 1) lines)))

  abbrev pub is_zero : ℤ → Bool
  is_zero (pos n) = n == 0
  is_zero (negsuc n) = false

  -- The answer about a file that was opened.
  unfoldable pub read_file : List ℕ → ℤ → ℤ → ReadAnswer
  unfolding split_lines numbered
  read_file text offset limit =
      if ltb max_read_file_size (length text) && (is_zero offset && is_zero limit)
      then too_large (length text)
      else from_line (split_lines text) (positive_or 1 offset) limit

-- `strings.Count(s, old)` for an `old` that is not empty; the number is of bytes to skip.
unfoldable pub count_from : ℕ → List ℕ → List ℕ → ℕ
count_from k [] old = 0
count_from (suc k) (c ∷ s) old = count_from k s old
count_from zero (c ∷ s) old =
    let found = has_prefix (c ∷ s) old in
    (if found then 1 else 0) + count_from (if found then length old - 1 else 0) s old

-- `strings.Replace(s, old, new, 1)`.
unfoldable pub replace_first : List ℕ → List ℕ → List ℕ → List ℕ
replace_first [] old new = []
replace_first (c ∷ s) old new =
    let rest = replace_first s old new in
    if has_prefix (c ∷ s) old then new ++ drop (length old) (c ∷ s) else c ∷ rest

pub data PatchAnswer : Type 0 where
  no_old_string not_accessible old_not_found write_failed patched : PatchAnswer
  not_opened : Opened → PatchAnswer
  ambiguous : ℕ → PatchAnswer

abbrev pub write_answer : Files × Bool → Files × PatchAnswer
write_answer (files, true) = (files, patched)
write_answer (files, false) = (files, write_failed)

-- By the number of matches.
unfoldable pub patch_counted :
    Files → List ℕ → List ℕ → List ℕ → List ℕ → WriteEnd → ℕ → Files × PatchAnswer
unfolding replace_first atomic_write_file
patch_counted files path s old new end zero = (files, old_not_found)
patch_counted files path s old new end (suc zero) =
    write_answer (atomic_write_file files path (replace_first s old new) end)
patch_counted files path s old new end (suc (suc n)) = (files, ambiguous (suc (suc n)))

abbrev pub patch_opened : Files → List ℕ → List ℕ → List ℕ → WriteEnd → Opened → Files × PatchAnswer
patch_opened files path old new end (content s) =
    patch_counted files path s old new end (count_from 0 s old)
patch_opened files path old new end o = (files, not_opened o)

-- With what `resolve_and_check` gives.
unfoldable pub patch_file :
    Files
    → (List ℕ → Option Opened)
    → Option (List ℕ)
    → List ℕ
    → List ℕ
    → WriteEnd
    → Files × PatchAnswer
unfolding read_path count_from patch_counted
patch_file files refused resolved [] new end = (files, no_old_string)
patch_file files refused none (c ∷ old) new end = (files, not_accessible)
patch_file files refused (some path) (c ∷ old) new end =
    patch_opened files path (c ∷ old) new end (read_path files refused path)

-- A write, where `made` says whether the directory is there. The flag is whether it was written.
unfoldable pub write_file : Files → Option (List ℕ) → Bool → List ℕ → WriteEnd → Files × Bool
unfolding atomic_write_file
write_file files none made text end = (files, false)
write_file files (some path) made text end =
    if made then atomic_write_file files path text end else (files, false)

pub record DirEntry : Type 0 where
  pub name : List ℕ
  pub size : Option ℕ
  pub is_dir : Bool

-- The loop over one directory; a pattern that is no pattern matches nothing.
unfoldable pub list_entries :
    (List ℕ → List ℕ → Option Bool) → List ℕ → ℕ → List DirEntry → List DirEntry
list_entries match pattern count [] = []
list_entries match pattern count (d ∷ entries) =
    let found = is_empty pattern || elim (match pattern d.name) [ none ↦ false | some b ↦ b ] in
    let rest = list_entries match pattern (if found then count + 1 else count) entries in
    if leb max_list_entries count then [] else if found then d ∷ rest else rest
