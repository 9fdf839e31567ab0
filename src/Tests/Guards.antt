-- ===== src/Tests/Guards.antt =====
-- Examples for toolreg, confirm.go, tools/shell.go, routines/sync.go and
-- pipelines/processed_tracker.go.
use sokratos.Base.{
  ℕ, ◌≤◌, ◌≡◌, ◌⊎◌, refl, Bool, true, false, Option, none, some, List, [], ◌∷◌, ◌++◌, ◌==◌,
  if◌then◌else◌, bytes, bytes_eq, All, has_prefix,
}
use sokratos.Approval.{record_key, new_approval_cache}
use sokratos.Registry.{
  result, ToolFunc, Registry, new_registry, register, lookup, schema_for, ToolCall, scoped_exec,
  is_allowed, key_of, confirm_exec,
}
use sokratos.Registry.Guards.{IsApproved, scoped_exec_allowed, confirm_exec_guards}
use sokratos.Shell.{
  ShellCommandCfg, ShellConfig, default_config, Paths, ShellRun, runs, not_allowed, prepare,
  extract_binaries, resolved_timeout, resolved_workspace_only,
}
use sokratos.Shell
use sokratos.Shell.Guards.{prepare_guards}
use sokratos.Schedule.{other}
use sokratos.Routines.{Entry, RoutineTable, row_of, Failures, sync_from_file}
use sokratos.Routines.Sync.{desired, sync_from_file_refines}
use sokratos.Processed.{filter_new, mark_processed, unseen, filter_new-mark_processed}

abbrev say : ToolFunc
say arguments = result arguments

abbrev tools : Registry
tools = register (register new_registry (bytes "read") say none) (bytes "send") say none

-- A call is written as its name.
abbrev named : List ℕ → Option ToolCall
named raw = some (record { name = raw; arguments = [] })

scoped_exec_allowed_example :
    ((scoped_exec named [] tools (bytes "read" ∷ []) (bytes "send")).ran ≡ none)
    ⊎ ((name : List ℕ) × ((scoped_exec named [] tools (bytes "read" ∷ []) (bytes "send")).ran
          ≡ some name)
        × (is_allowed (bytes "read" ∷ []) name ≡ true))
scoped_exec_allowed_example = scoped_exec_allowed named [] tools (bytes "read" ∷ []) (bytes "send")

-- `send` is not one of the tools that a scoped executor runs for `read`.
send_not_available : (scoped_exec named [] tools (bytes "read" ∷ []) (bytes "send")).ran ≡ none
unfolding scoped_exec
send_not_available = refl

abbrev send_call : ToolCall
send_call = record { name = bytes "send"; arguments = [] }

confirm_exec_guards_example :
    let key = key_of named [] send_call (schema_for tools (bytes "send")) in
    let out =
      confirm_exec named [] tools
        (λ n. bytes_eq n (bytes "send"))
        (new_approval_cache 300)
        (bytes "send")
        (some true)
        5
        9 in
    ((out.1.ran ≡ none) ⊎ IsApproved named [] (new_approval_cache 300) key (some true) 5)
    × ((out.0 ≡ new_approval_cache 300)
        ⊎ ((◌≡◌ {A = Option Bool} (some true) (some true))
            × (out.0 ≡ record_key (new_approval_cache 300) key 9)))
confirm_exec_guards_example =
    confirm_exec_guards named [] tools (λ n. bytes_eq n (bytes "send")) (new_approval_cache 300)
      (bytes "send") send_call (some true) 5 9 refl refl

-- A first word, up to a space.
abbrev word : List ℕ → List ℕ
word [] = []
word (c ∷ s) = let rest = word s in if c == 32 then [] else c ∷ rest

abbrev words : List ℕ → List (List ℕ)
words s = word s ∷ []

abbrev without_space : List ℕ → List ℕ
without_space [] = []
without_space (c ∷ s) = let rest = without_space s in if c == 32 then rest else c ∷ s

abbrev listing : ShellConfig
listing = record default_config {
  commands =
      (bytes "ls", record { description = []; timeout = []; workspace_only = none })
      ∷ (bytes "wc", record { description = []; timeout = bytes "9s"; workspace_only = some false })
      ∷ [];
}

abbrev seconds : List ℕ → Option ℕ
seconds s = if bytes_eq s (bytes "30s") then some 30 else some 9

abbrev paths : Paths
paths = record {
  abs = λ p. some p;
  join = λ p q. p ++ (bytes "/" ++ q);
  clean = λ p. p;
  home = none;
}

abbrev ls_wc : List (List ℕ)
ls_wc = bytes "ls" ∷ bytes "wc" ∷ []

-- The binaries of a pipe, and of a command behind a single `&`, which the shell runs as well.
binaries_found : extract_binaries without_space words (λ b. b) (bytes "ls | wc") ≡ ls_wc
unfolding extract_binaries
binaries_found = refl

background_missed :
    extract_binaries without_space words (λ b. b) (bytes "ls & rm x") ≡ bytes "ls" ∷ []
unfolding extract_binaries
background_missed = refl

-- A directory beside the workspace counts as one within it.
sibling_passes :
    Shell.resolve_work_dir
      (record paths { join = λ p q. bytes "/ws-old" })
      (bytes "/ws")
      true
      (bytes "../ws-old")
    ≡ some (bytes "/ws-old")
unfolding Shell.resolve_work_dir
sibling_passes = refl

abbrev ls_run : ShellRun
ls_run = record { command = bytes "ls | wc"; dir = bytes "/ws/a"; timeout = 30 }

prepare_guards_example :
    (bytes "ls | wc" ≡ bytes "ls | wc")
    × ((All
          (λ b. Shell.is_allowed listing b ≡ true)
          (extract_binaries without_space words (λ b. b) (bytes "ls | wc")))
        × ((All
              (λ b. resolved_timeout seconds listing b ≤ 30)
              (extract_binaries without_space words (λ b. b) (bytes "ls | wc")))
            × ((All
                  (λ b. resolved_workspace_only listing b ≡ false)
                  (extract_binaries without_space words (λ b. b) (bytes "ls | wc")))
                ⊎ (has_prefix (bytes "/ws/a") (bytes "/ws") ≡ true))))
unfolding prepare extract_binaries
prepare_guards_example =
    prepare_guards seconds paths (bytes "/ws") listing without_space words (λ b. b)
      (bytes "ls | wc") (bytes "a") ls_run refl

abbrev briefing : Entry
briefing = record {
  interval = bytes "24h";
  schedule = other;
  action = [];
  actions = [];
  action_args = none;
  goal = [];
  silent_if_empty = false;
  instruction = bytes "brief me";
}

abbrev all_works : Failures
all_works = record { upsert_fails = λ n. false; delete_fails = λ n. false; query_fails = false }

abbrev old_routines : RoutineTable
old_routines = (bytes "stale", row_of briefing) ∷ []

sync_from_file_refines_example :
    lookup
      (sync_from_file without_space all_works old_routines (some ((bytes "news", briefing) ∷ []))).0
      (bytes "stale")
    ≡ desired without_space all_works
        (bytes "stale")
        (lookup ((bytes "news", briefing) ∷ []) (bytes "stale"))
        (lookup old_routines (bytes "stale"))
unfolding lookup
sync_from_file_refines_example =
    sync_from_file_refines without_space all_works old_routines ((bytes "news", briefing) ∷ [])
      (bytes "stale") (refl, tt) refl

-- The stale routine goes, and the list of added names stays empty.
stale_deleted :
    (sync_from_file without_space all_works old_routines (some ((bytes "news", briefing) ∷ []))).2
    ≡ bytes "stale" ∷ []
unfolding sync_from_file
stale_deleted = refl

filter_new-mark_processed_example :
    (filter_new false
        (mark_processed false (bytes "a" ∷ []) (bytes "b" ∷ []))
        (bytes "b" ∷ bytes "c" ∷ [])
      ≡ unseen (bytes "b" ∷ []) (filter_new false (bytes "a" ∷ []) (bytes "b" ∷ bytes "c" ∷ [])))
    × (filter_new false (mark_processed false (bytes "a" ∷ []) (bytes "b" ∷ [])) (bytes "b" ∷ [])
        ≡ [])
    × (filter_new true (bytes "a" ∷ []) (bytes "b" ∷ bytes "c" ∷ []) ≡ bytes "b" ∷ bytes "c" ∷ [])
filter_new-mark_processed_example =
    filter_new-mark_processed (bytes "a" ∷ []) (bytes "b" ∷ []) (bytes "b" ∷ bytes "c" ∷ [])
