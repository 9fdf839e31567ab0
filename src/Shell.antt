-- ===== src/Shell.antt =====
-- tools/shell.go and tools/shell_config.go: which shell commands run, where, and for how long.
-- Texts are bytes and durations are nanoseconds, not negative. The functions of Go's packages
-- `strings`, `time` and `path/filepath` that depend on Unicode, on the home directory or on the
-- working directory are arguments, and so are the printed descriptions of the commands. The table of
-- commands is an association list.
pub mod Guards
pub mod Output
use sokratos.Base.{
  ℕ, zero, suc, ◌+◌, ◌-◌, ◌*◌, ◌/◌, ◌%◌, ◌^◌, ◌≤◌, ◌<◌, ◌≡◌, ◌≢◌, ◌↔◌, ◌⊎◌, inl, inr, refl, ap, sym,
  subst, ◌∙◌, Bool, true, false, not, ◌&&◌, ◌||◌, Option, none, some, List, [], ◌∷◌, ◌++◌, ltb, leb,
  ◌==◌, if◌then◌else◌, length, take, drop, get_elem?, is_empty, bytes, bytes_eq, bytes_eq_refl,
  bytes_eq_sound, ℤ, pos, negsuc, positive_or, Elem, All, Bool-cases, Option-cases, arith,
  length-append, has_prefix, length-snoc, length-take-le, length-drop,
}
use sokratos.Registry.{lookup}

pub record ShellCommandCfg : Type 0 where
  pub description : List ℕ
  pub timeout : List ℕ
  pub workspace_only : Option Bool

pub record ShellDefaults : Type 0 where
  pub timeout : List ℕ
  pub max_output : ℤ
  pub workspace_only : Bool

pub record ShellConfig : Type 0 where
  pub defaults : ShellDefaults
  pub commands : List (List ℕ × ShellCommandCfg)

-- The configuration where the file does not exist, and what loading fills in where it does.
abbrev pub default_config : ShellConfig
default_config = record {
  defaults = record { timeout = bytes "30s"; max_output = pos 10000; workspace_only = true };
  commands = [];
}

unfoldable pub filled : ShellConfig → ShellConfig
filled cfg = record cfg {
  defaults = record {
    timeout = if is_empty cfg.defaults.timeout then bytes "30s" else cfg.defaults.timeout;
    max_output = pos (positive_or 10000 cfg.defaults.max_output);
    workspace_only = cfg.defaults.workspace_only;
  };
}

-- The file is missing, cannot be read or parsed, or is decoded over the defaults.
pub data ShellFile : Type 0 where
  missing broken : ShellFile
  decoded : ShellConfig → ShellFile

unfoldable pub load_shell_config : ShellFile → Option ShellConfig
unfolding filled
load_shell_config missing = some default_config
load_shell_config broken = none
load_shell_config (decoded cfg) = some (filled cfg)

-- `SyncIfChanged`, with the configuration and the time of the file it was read from.
unfoldable pub sync_if_changed : ShellConfig × ℕ → Option ℕ → ShellFile → ShellConfig × ℕ
unfolding load_shell_config
sync_if_changed (cfg, last_mtime) none file = (cfg, last_mtime)
sync_if_changed (cfg, last_mtime) (some mtime) file =
    if not (ltb last_mtime mtime)
    then (cfg, last_mtime)
    else elim (load_shell_config file) [ none ↦ (cfg, last_mtime) | some new ↦ (new, mtime) ]

unfoldable pub is_allowed : ShellConfig → List ℕ → Bool
unfolding lookup
is_allowed cfg cmd = elim (lookup cfg.commands cmd) [ none ↦ false | some cc ↦ true ]

unfoldable pub resolved_workspace_only : ShellConfig → List ℕ → Bool
unfolding lookup
resolved_workspace_only cfg cmd = elim (lookup cfg.commands cmd) [
  | none ↦ cfg.defaults.workspace_only
  | some cc ↦ elim cc.workspace_only [ none ↦ cfg.defaults.workspace_only | some b ↦ b ]
]

unfoldable pub resolved_max_output : ShellConfig → ℕ
resolved_max_output cfg = positive_or 10000 cfg.defaults.max_output

-- `strings.ReplaceAll(s, cc, "\x00")` for a character c twice; the flag says that one c is held.
unfoldable pub replace_pair : ℕ → Bool → List ℕ → List ℕ
replace_pair c false [] = []
replace_pair c true [] = c ∷ []
replace_pair c false (x ∷ s) =
    let rest = replace_pair c (x == c) s in if x == c then rest else x ∷ rest
replace_pair c true (x ∷ s) =
    let rest = replace_pair c false s in if x == c then 0 ∷ rest else c ∷ x ∷ rest

unfoldable pub replace_one : ℕ → List ℕ → List ℕ
replace_one c [] = []
replace_one c (x ∷ s) = (if x == c then 0 else x) ∷ replace_one c s

abbrev pub before_first : ℕ → List (List ℕ) → List (List ℕ)
before_first c [] = (c ∷ []) ∷ []
before_first c (part ∷ parts) = (c ∷ part) ∷ parts

-- `strings.Split(s, "\x00")`.
unfoldable pub split_zero : List ℕ → List (List ℕ)
split_zero [] = [] ∷ []
split_zero (c ∷ s) = let rest = split_zero s in if c == 0 then [] ∷ rest else before_first c rest

-- The operators become zero bytes: "&&", "||", ";" and "|" in this order.
unfoldable pub separated : List ℕ → List ℕ
unfolding replace_pair replace_one
separated s = replace_one 124 (replace_one 59 (replace_pair 124 false (replace_pair 38 false s)))

unfoldable pub has_binary : List (List ℕ) → List ℕ → Bool
has_binary [] b = false
has_binary (x ∷ seen) b = bytes_eq x b || has_binary seen b

module _ (trim_space : List ℕ → List ℕ) where
  unfoldable pub trimmed_parts : List (List ℕ) → List (List ℕ)
  trimmed_parts [] = []
  trimmed_parts (p ∷ parts) =
      let rest = trimmed_parts parts in
      if is_empty (trim_space p) then rest else trim_space p ∷ rest

  unfoldable pub split_shell_compound : List ℕ → List (List ℕ)
  unfolding separated split_zero trimmed_parts
  split_shell_compound command = trimmed_parts (split_zero (separated command))

  module _ (fields : List ℕ → List (List ℕ)) (base : List ℕ → List ℕ) where
    abbrev pub with_binary : List (List ℕ) → List ℕ → List (List ℕ)
    with_binary seen b = if is_empty b || has_binary seen b then seen else seen ++ b ∷ []

    unfoldable pub binaries_of : List (List ℕ) → List (List ℕ) → List (List ℕ)
    unfolding has_binary
    binaries_of seen [] = seen
    binaries_of seen (seg ∷ segments) =
        binaries_of
          (if is_empty (trim_space seg) then seen else elim (fields (trim_space seg)) [
            | [] ↦ seen
            | f ∷ more ↦ with_binary seen (base f)
          ])
          segments

    unfoldable pub extract_binaries : List ℕ → List (List ℕ)
    unfolding binaries_of split_shell_compound
    extract_binaries command = binaries_of [] (split_shell_compound command)

-- A command that may run, and the answers to one that may not.
pub record ShellRun : Type 0 where
  pub command : List ℕ
  pub dir : List ℕ
  pub timeout : ℕ

pub data Prepared : Type 0 where
  unparsed : Prepared
  not_allowed : List ℕ → Prepared
  bad_dir : List ℕ → Prepared
  runs : ShellRun → Prepared

unfoldable pub first_refused : ShellConfig → List (List ℕ) → Option (List ℕ)
unfolding is_allowed
first_refused cfg [] = none
first_refused cfg (b ∷ binaries) =
    let rest = first_refused cfg binaries in if is_allowed cfg b then rest else some b

unfoldable pub any_workspace_only : ShellConfig → Bool → List (List ℕ) → Bool
unfolding resolved_workspace_only
any_workspace_only cfg ws [] = ws
any_workspace_only cfg ws (b ∷ binaries) =
    any_workspace_only cfg (if resolved_workspace_only cfg b then true else ws) binaries

module _ (parse_duration : List ℕ → Option ℕ) where
  abbrev pub default_timeout : ShellConfig → ℕ
  default_timeout cfg = elim (parse_duration cfg.defaults.timeout) [
    | none ↦ 30 * 10 ^ 9
    | some d ↦ d
  ]

  -- `ParseDuration` fails on the empty text, which the code also tests for.
  unfoldable pub resolved_timeout : ShellConfig → List ℕ → ℕ
  unfolding lookup
  resolved_timeout cfg cmd = elim (lookup cfg.commands cmd) [
    | none ↦ default_timeout cfg
    | some cc ↦
        if is_empty cc.timeout
        then default_timeout cfg
        else elim (parse_duration cc.timeout) [ none ↦ default_timeout cfg | some d ↦ d ]
  ]

  unfoldable pub longest_timeout : ShellConfig → ℕ → List (List ℕ) → ℕ
  unfolding resolved_timeout
  longest_timeout cfg timeout [] = timeout
  longest_timeout cfg timeout (b ∷ binaries) =
      longest_timeout cfg
        (if ltb timeout (resolved_timeout cfg b) then resolved_timeout cfg b else timeout) binaries

-- What depends on the machine: `filepath.Abs`, `filepath.Join`, `filepath.Clean` and `expandTilde`.
pub record Paths : Type 0 where
  pub abs : List ℕ → Option (List ℕ)
  pub join : List ℕ → List ℕ → List ℕ
  pub clean : List ℕ → List ℕ
  pub home : Option (List ℕ)

-- `path == "~" || strings.HasPrefix(path, "~/")`.
abbrev pub is_home : List ℕ → Bool
is_home path = bytes_eq path (bytes "~") || has_prefix path (bytes "~/")

unfoldable pub expand_tilde : Paths → List ℕ → List ℕ
expand_tilde paths path =
    if is_home path
    then elim paths.home [ none ↦ path | some home ↦ paths.join home (drop 1 path) ]
    else path

abbrev pub workspace_dir_of : Paths → List ℕ → List ℕ → List ℕ
workspace_dir_of paths workspace_dir working_dir =
    if is_empty working_dir
    then workspace_dir
    else paths.join workspace_dir (paths.clean working_dir)

-- `none` for an error.
unfoldable pub resolve_work_dir : Paths → List ℕ → Bool → List ℕ → Option (List ℕ)
unfolding expand_tilde
resolve_work_dir paths workspace_dir true working_dir =
    elim (paths.abs (workspace_dir_of paths workspace_dir working_dir)) [
      | none ↦ none
      | some dir ↦ if has_prefix dir workspace_dir then some dir else none
    ]
resolve_work_dir paths workspace_dir false working_dir =
    if is_empty working_dir
    then some workspace_dir
    else if has_prefix (expand_tilde paths working_dir) (bytes "/")
    then some (expand_tilde paths working_dir)
    else paths.abs (expand_tilde paths working_dir)

-- `execute` up to the start of the command, on the binaries that it found.
module _ (parse_duration : List ℕ → Option ℕ) (paths : Paths) (workspace_dir : List ℕ)
    (cfg : ShellConfig) where
  abbrev pub in_dir : List ℕ → List ℕ → ℕ → Option (List ℕ) → Prepared
  in_dir command working_dir timeout none = bad_dir working_dir
  in_dir command working_dir timeout (some dir) =
      runs (record { command = command; dir = dir; timeout = timeout })

  unfoldable pub prepare : List ℕ → List ℕ → List (List ℕ) → Prepared
  unfolding first_refused longest_timeout any_workspace_only resolve_work_dir
  prepare command working_dir [] = unparsed
  prepare command working_dir (b ∷ binaries) = elim (first_refused cfg (b ∷ binaries)) [
    | some refused ↦ not_allowed refused
    | none ↦
        in_dir command working_dir
          (longest_timeout parse_duration cfg (resolved_timeout parse_duration cfg b) binaries)
          (resolve_work_dir paths workspace_dir
            (any_workspace_only cfg (resolved_workspace_only cfg b) binaries) working_dir)
  ]
