-- ===== src/Pursuit/Callback.antt =====
-- The callback of objective_callbacks.go, which runs when the task of an objective ends, as two
-- functions: before and after the request to the LLM.
use sokratos.Base.{ℕ, Bool, Option, none, List, ◌++◌, if◌then◌else◌, is_empty, bytes, bytes_eq}
use sokratos.Text.{truncate}
use sokratos.Objectives.{
  active, Objective, ObjectiveTable, update_status, append_progress, complete, get_row,
}

pub record TaskResult : Type 0 where
  pub objective_id : ℕ
  pub status : List ℕ
  pub result : List ℕ

-- `objectiveProgressEval`.
pub record ProgressEval : Type 0 where
  pub progress : List ℕ
  pub objective_status : List ℕ
  pub follow_up : List ℕ

-- Whether the database answers `Get` and takes the updates of the callback.
pub record CallbackAnswers : Type 0 where
  pub result_ok : Bool
  pub get_ok : Bool
  pub progress_ok : Bool
  pub status_ok : Bool
  pub next_ok : Bool

-- `AppendProgress`, whose error is ignored.
unfoldable pub note_if : Bool → ObjectiveTable → ℕ → List ℕ → ℕ → ObjectiveTable
unfolding append_progress
note_if ok t id note now = if ok then append_progress t id note now else t

-- The callback of `buildObjectiveTaskCallback` up to the request: the table, and the objective for
-- the prompt.
unfoldable pub note_task_result :
    (ℕ → Bool)
    → CallbackAnswers
    → ObjectiveTable
    → TaskResult
    → ℕ
    → ObjectiveTable × Option Objective
unfolding note_if get_row
note_task_result rune_start a t r now =
    let note = r.status ++ (bytes ": " ++ truncate rune_start r.result 500) in
    let noted = note_if a.result_ok t r.objective_id note now in
    (noted, if a.get_ok then get_row noted.rows r.objective_id else none)

-- The callback after the request, on the table as it is then.
unfoldable pub after_eval : CallbackAnswers → ObjectiveTable → ℕ → ProgressEval → ℕ → ObjectiveTable
unfolding note_if complete update_status
after_eval a t id eval now =
    let noted =
      if is_empty eval.progress
      then t
      else note_if a.progress_ok t id (bytes "[eval] " ++ eval.progress) now in
    if bytes_eq eval.objective_status (bytes "completed")
    then if a.status_ok then complete noted id now else noted
    else if bytes_eq eval.objective_status (bytes "continue")
    then (let resumed = if a.status_ok then update_status noted id active now else noted in
        if is_empty eval.follow_up
        then resumed
        else note_if a.next_ok resumed id (bytes "[next] " ++ eval.follow_up) now)
    else noted
