-- ===== src/Tests/Files.antt =====
-- Examples for tools/file_ops.go.
use sokratos.Base.{◌≡◌, refl, true, none, some, [], ◌∷◌, ◌++◌, take, bytes, pos}
use sokratos.Approval.{check, new_approval_cache}
use sokratos.Registry.{lookup}
use sokratos.Shell.{Paths}
use sokratos.FileOps.{
  Files, written, FileOpsConfig, resolve_and_check, resolve_path, count_from, patch_file, patched,
  read_file, shown,
}
use sokratos.FileOps.Access.{Checked, resolve_and_check_guards}
use sokratos.FileOps.Patch.{Patched, patch_file_replaces}

abbrev paths : Paths
paths = record {
  abs = λ p. some p;
  join = λ p q. p ++ (bytes "/" ++ q);
  clean = λ p. p;
  home = none;
}

abbrev asking : FileOpsConfig
asking = record {
  workspace_dir = bytes "/ws";
  confirmer = true;
  approvals = new_approval_cache 300;
}

resolve_and_check_guards_example :
    Checked paths
      (λ s. s)
      (λ p. take 4 p)
      asking
      (resolve_path paths (λ s. s) (λ p. take 4 p) (bytes "/ws") (bytes "/etc/hosts"))
      (some true)
      5
      9
      (resolve_and_check paths (λ s. s) (λ p. take 4 p) asking (bytes "/etc/hosts") (some true) 5 9)
resolve_and_check_guards_example =
    resolve_and_check_guards paths (λ s. s) (λ p. take 4 p) asking (bytes "/etc/hosts") (some true)
      5 9

-- The user's yes gives the path.
asked_path :
    (resolve_and_check paths (λ s. s) (λ p. take 4 p) asking (bytes "/etc/hosts") (some true) 5 9).1
    ≡ some (bytes "/etc/hosts")
unfolding resolve_and_check check new_approval_cache
asked_path = refl

abbrev notes : Files
notes = (bytes "/ws/a", bytes "one two") ∷ []

patch_file_replaces_example :
    Patched notes
      (bytes "/ws/a")
      (bytes "one two")
      (bytes "two")
      (bytes "2")
      written
      (patch_file notes (λ p. none) (some (bytes "/ws/a")) (bytes "two") (bytes "2") written)
unfolding lookup
patch_file_replaces_example =
    patch_file_replaces notes (λ p. none) (bytes "/ws/a") (bytes "one two") (bytes "2") 116
      (bytes "wo") written refl refl

two_patched :
    patch_file notes (λ p. none) (some (bytes "/ws/a")) (bytes "two") (bytes "2") written
    ≡ ((bytes "/ws/a", bytes "one 2") ∷ [], patched)
unfolding patch_file
two_patched = refl

-- Two matches that overlap count as one.
overlapping_once : count_from 0 (bytes "aaa") (bytes "aa") ≡ 1
unfolding count_from
overlapping_once = refl

second_line : read_file (λ n s. s) (98 ∷ 10 ∷ 99 ∷ 10 ∷ 100 ∷ []) (pos 2) (pos 1) ≡ shown (99 ∷ [])
unfolding read_file
second_line = refl
