-- ===== src/Objectives/Manage.antt =====
-- tools/objectives.go, and the saving of inferred objectives in engine/objectives.go.
use sokratos.Base.{
  ℕ, suc, Bool, not, ◌&&◌, ◌||◌, none, some, List, [], ◌∷◌, ◌==◌, if◌then◌else◌, is_empty, bytes,
  bytes_eq,
}
use sokratos.Objectives.{
  Objective, ObjectiveTable, active, append_progress, complete, create, find_similar, get_row,
  list_all, paused, retire, update_priority, update_status,
}

-- What `manage_objectives` is called with, and what it answers.
pub record ObjectiveArgs : Type 0 where
  pub op : List ℕ
  pub summary : List ℕ
  pub objective_id : ℕ
  pub priority : List ℕ
  pub notes : List ℕ

pub data ManageAnswer : Type 0 where
  missing_summary missing_id failed unknown_op : ManageAnswer
  similar_exists : Objective → ManageAnswer
  created : ℕ → ManageAnswer
  updated : Objective → ManageAnswer
  changed : ManageAnswer
  listed : List Objective → ManageAnswer

-- The statements of one call succeed, or the one that is reached first fails.
abbrev pub if_id :
    ObjectiveArgs → ObjectiveTable → Bool → ObjectiveTable → ObjectiveTable × ManageAnswer
if_id a t db_ok t' =
    if a.objective_id == 0 then (t, missing_id) else if db_ok then (t', changed) else (t, failed)

unfoldable pub add_objective :
    (List ℕ → List ℕ → Bool)
    → ObjectiveTable
    → Bool
    → ObjectiveArgs
    → ℕ
    → ObjectiveTable × ManageAnswer
unfolding find_similar create
add_objective matches t db_ok a now =
    if is_empty a.summary then (t, missing_summary) else elim (find_similar matches t a.summary) [
      | g ∷ rest ↦ (t, similar_exists g)
      | [] ↦
          if db_ok
          then (create t a.summary a.priority (bytes "explicit") now, created t.next_id)
          else (t, failed)
    ]

-- `update`: whether the database takes the notes, the priority and the query.
unfoldable pub update_objective :
    ObjectiveTable → Bool → Bool → Bool → ObjectiveArgs → ℕ → ObjectiveTable × ManageAnswer
unfolding append_progress update_priority get_row
update_objective t notes_ok priority_ok get_ok a now =
    let noted = if is_empty a.notes then t else append_progress t a.objective_id a.notes now in
    let ranked =
      if is_empty a.priority then noted else update_priority noted a.objective_id a.priority now in
    if a.objective_id == 0
    then (t, missing_id)
    else if not (is_empty a.notes) && not notes_ok
    then (t, failed)
    else if not (is_empty a.priority) && not priority_ok
    then (noted, failed)
    else elim (get_row ranked.rows a.objective_id) [
      | none ↦ (ranked, failed)
      | some g ↦ if get_ok then (ranked, updated g) else (ranked, failed)
    ]

-- `NewManageObjectives`, where the database takes every statement if `db_ok`, and none otherwise; a
-- `FindSimilar` that fails finds nothing.
unfoldable pub manage_objectives :
    (List ℕ → List ℕ → Bool)
    → ObjectiveTable
    → Bool
    → ObjectiveArgs
    → ℕ
    → ObjectiveTable × ManageAnswer
unfolding add_objective update_objective update_status complete retire list_all
manage_objectives matches t db_ok a now =
    if bytes_eq a.op (bytes "add")
    then add_objective (λ k s. db_ok && matches k s) t db_ok a now
    else if bytes_eq a.op (bytes "update")
    then update_objective t db_ok db_ok db_ok a now
    else if bytes_eq a.op (bytes "pause")
    then if_id a t db_ok (update_status t a.objective_id paused now)
    else if bytes_eq a.op (bytes "resume")
    then if_id a t db_ok (update_status t a.objective_id active now)
    else if bytes_eq a.op (bytes "complete")
    then if_id a t db_ok (complete t a.objective_id now)
    else if bytes_eq a.op (bytes "retire")
    then if_id a t db_ok (retire t a.objective_id now)
    else if bytes_eq a.op (bytes "list")
    then (t, if db_ok then listed (list_all t) else failed)
    else (t, unknown_op)

-- The loop of `InferObjectives` over the answer: the table and the number saved. `trim_space` is
-- `strings.TrimSpace`, and `db_ok` says which insertions work.
abbrev pub known_priority : List ℕ → List ℕ
known_priority p =
    if bytes_eq p (bytes "high") || (bytes_eq p (bytes "medium") || bytes_eq p (bytes "low"))
    then p
    else bytes "medium"

unfoldable pub save_inferred :
    (List ℕ → List ℕ)
    → (List ℕ → List ℕ → Bool)
    → (List ℕ → Bool)
    → ObjectiveTable
    → List (List ℕ × List ℕ)
    → ℕ
    → ObjectiveTable × ℕ
unfolding find_similar create
save_inferred trim_space matches db_ok t [] now = (t, 0)
save_inferred trim_space matches db_ok t ((objective, priority) ∷ found) now =
    let skips =
      is_empty (trim_space objective)
      || (not (is_empty (find_similar matches t objective)) || not (db_ok objective)) in
    let next =
      if skips then t else create t objective (known_priority priority) (bytes "inferred") now in
    let (t', saved) = save_inferred trim_space matches db_ok next found now in
    (t', if skips then saved else suc saved)
