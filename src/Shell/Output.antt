-- ===== src/Shell/Output.antt =====
-- What tools/shell.go answers and records after a command ran.
-- The printed durations and numbers are arguments.
use sokratos.Base.{
  ℕ, ◌&&◌, Option, none, some, List, [], ◌∷◌, ◌++◌, leb, if◌then◌else◌, length, take, is_empty,
  bytes, ℤ, negsuc,
}
use sokratos.Shell.{ShellConfig, ShellRun, resolved_max_output}

unfoldable pub truncate_output : List ℕ → ℕ → List ℕ
truncate_output s max_len =
    if leb (length s) max_len then s else take max_len s ++ (10 ∷ bytes "... (truncated)")

-- How `cmd.Run` ends: with an exit code, with another error while the context is over, or with
-- another error.
pub data RunEnd : Type 0 where
  exited : ℤ → RunEnd
  timed_out not_run : List ℕ → RunEnd

-- A row of `shell_history`, without the duration.
pub record AuditRow : Type 0 where
  pub command : List ℕ
  pub dir : List ℕ
  pub exit_code : ℤ
  pub stdout_preview : List ℕ
  pub stderr_preview : List ℕ

abbrev pub section_of : List ℕ → List ℕ → List ℕ
section_of heading s =
    if is_empty s then [] else 10 ∷ bytes "--- " ++ (heading ++ (bytes " ---" ++ (10 ∷ s)))

unfoldable pub format_result : List ℕ → List ℕ → List ℕ → List ℕ → List ℕ
format_result code duration out err =
    bytes "Exit code: "
    ++ (code
        ++ (bytes " | Duration: "
            ++ (duration
                ++ (10 ∷ section_of (bytes "stdout") out
                    ++ (section_of (bytes "stderr") err
                        ++ (if is_empty out && is_empty err
                            then 10 ∷ bytes "(no output)"
                            else []))))))

-- The answer, and the row that is recorded.
unfoldable pub after_run :
    (ℤ → List ℕ)
    → (ℕ → List ℕ)
    → ShellConfig
    → ShellRun
    → RunEnd
    → List ℕ
    → List ℕ
    → ℕ
    → List ℕ × Option AuditRow
unfolding truncate_output format_result resolved_max_output
after_run print_code print_duration cfg r (exited code) out err duration = (
  format_result (print_code code) (print_duration duration)
      (truncate_output out (resolved_max_output cfg))
      (truncate_output err (resolved_max_output cfg)),
  some (record {
    command = r.command;
    dir = r.dir;
    exit_code = code;
    stdout_preview = truncate_output out 500;
    stderr_preview = truncate_output err 500;
  }),
)
after_run print_code print_duration cfg r (timed_out e) out err duration = (
  bytes "Command timed out after "
      ++ (print_duration r.timeout
          ++ (bytes " (killed)."
              ++ (10 ∷ 10 ∷ bytes "--- stderr ---" ++ (10 ∷ truncate_output err 500)))),
  some (record {
    command = r.command;
    dir = r.dir;
    exit_code = negsuc 0;
    stdout_preview = [];
    stderr_preview = e;
  }),
)
after_run print_code print_duration cfg r (not_run e) out err duration =
    (bytes "Command execution failed: " ++ e, none)
