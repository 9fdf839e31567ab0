-- ===== src/Objectives.antt =====
-- objectives/objectives.go, tools/objectives.go and the saving of inferred objectives in
-- engine/objectives.go: the table `objectives`.
-- Texts are bytes and times are nanoseconds; `now()` is an argument, and so is a Boolean for each
-- statement that says whether the database takes it. `ILIKE` is the argument `matches`, on the key
-- and a summary. Rows that are equal in an ORDER BY come in the order of the table.
pub mod Manage
pub mod Order
use sokratos.Base.{
  ℕ, zero, suc, ◌+◌, ◌-◌, ◌*◌, ◌/◌, ◌%◌, ◌^◌, ◌≤◌, ◌<◌, ◌≡◌, ◌≢◌, ◌↔◌, ◌⊎◌, inl, inr, refl, ap, sym,
  subst, ◌∙◌, Bool, true, false, not, ◌&&◌, ◌||◌, Option, none, some, List, [], ◌∷◌, ◌++◌, ltb, leb,
  ◌==◌, if◌then◌else◌, length, take, drop, get_elem?, is_empty, bytes, bytes_eq, bytes_eq_refl,
  bytes_eq_sound, ℤ, pos, negsuc, positive_or, Elem, All, Bool-cases, Option-cases, arith,
  length-append, has_prefix, length-snoc, length-take-le, length-drop,
}

pub data ObjectiveStatus : Type 0 where
  active in_progress completed paused retired : ObjectiveStatus

-- The times of creation and completion are not kept.
pub record Objective : Type 0 where
  pub id : ℕ
  pub summary : List ℕ
  pub status : ObjectiveStatus
  pub priority : List ℕ
  pub source : List ℕ
  pub progress_notes : List ℕ
  pub attempts : ℕ
  pub last_pursued : Option ℕ
  pub updated_at : ℕ

pub record ObjectiveTable : Type 0 where
  pub rows : List Objective
  pub next_id : ℕ

unfoldable pub or_default : List ℕ → List ℕ → List ℕ
or_default default s = if is_empty s then default else s

-- `Create`.
unfoldable pub create : ObjectiveTable → List ℕ → List ℕ → List ℕ → ℕ → ObjectiveTable
unfolding or_default
create t summary priority source now = record {
  rows =
      t.rows
      ++ record {
        id = t.next_id;
        summary = summary;
        status = active;
        priority = or_default (bytes "medium") priority;
        source = or_default (bytes "explicit") source;
        progress_notes = [];
        attempts = 0;
        last_pursued = none;
        updated_at = now;
      }
        ∷ [];
  next_id = suc t.next_id;
}

-- `UPDATE objectives SET … WHERE id = $1`.
unfoldable pub update_rows : ℕ → (Objective → Objective) → List Objective → List Objective
update_rows id change [] = []
update_rows id change (g ∷ rows) =
    let rest = update_rows id change rows in if g.id == id then change g ∷ rest else g ∷ rest

unfoldable pub update_row : ObjectiveTable → ℕ → (Objective → Objective) → ObjectiveTable
unfolding update_rows
update_row t id change = record t { rows = update_rows id change t.rows }

unfoldable pub update_status : ObjectiveTable → ℕ → ObjectiveStatus → ℕ → ObjectiveTable
unfolding update_row
update_status t id status now =
    update_row t id (λ g. record g { status = status; updated_at = now })

unfoldable pub with_note : List ℕ → List ℕ → List ℕ
with_note notes note = if is_empty notes then note else notes ++ ((10 ∷ bytes "---") ++ (10 ∷ note))

unfoldable pub append_progress : ObjectiveTable → ℕ → List ℕ → ℕ → ObjectiveTable
unfolding update_row with_note
append_progress t id note now =
    update_row t id
      (λ g. record g { progress_notes = with_note g.progress_notes note; updated_at = now })

unfoldable pub increment_attempts : ObjectiveTable → ℕ → ℕ → ObjectiveTable
unfolding update_row
increment_attempts t id now =
    update_row t id
      (λ g. record g { attempts = suc g.attempts; last_pursued = some now; updated_at = now })

unfoldable pub update_priority : ObjectiveTable → ℕ → List ℕ → ℕ → ObjectiveTable
unfolding update_row
update_priority t id priority now =
    update_row t id (λ g. record g { priority = priority; updated_at = now })

unfoldable pub retire : ObjectiveTable → ℕ → ℕ → ObjectiveTable
unfolding update_status
retire t id now = update_status t id retired now

unfoldable pub complete : ObjectiveTable → ℕ → ℕ → ObjectiveTable
unfolding update_row
complete t id now = update_row t id (λ g. record g { status = completed; updated_at = now })

-- `Get`.
unfoldable pub get_row : List Objective → ℕ → Option Objective
get_row [] id = none
get_row (g ∷ rows) id = let rest = get_row rows id in if g.id == id then some g else rest

abbrev pub is_active : ObjectiveStatus → Bool
is_active active = true
is_active in_progress = true
is_active _ = false

abbrev pub is_retired : ObjectiveStatus → Bool
is_retired retired = true
is_retired _ = false

abbrev pub is_closed : ObjectiveStatus → Bool
is_closed retired = true
is_closed completed = true
is_closed _ = false

-- `CASE priority WHEN 'high' THEN 1 WHEN 'medium' THEN 2 ELSE 3 END`.
abbrev pub rank : List ℕ → ℕ
rank priority =
    if bytes_eq priority (bytes "high")
    then 1
    else if bytes_eq priority (bytes "medium")
    then 2
    else 3

-- `ORDER BY` the rank, then `updated_at DESC`: `a` does not come after `b`.
abbrev pub comes_first : Objective → Objective → Bool
comes_first a b =
    ltb (rank a.priority) (rank b.priority)
    || rank a.priority == rank b.priority && leb b.updated_at a.updated_at

unfoldable pub insert_row : Objective → List Objective → List Objective
insert_row g [] = g ∷ []
insert_row g (h ∷ rows) =
    let rest = insert_row g rows in if comes_first g h then g ∷ h ∷ rows else h ∷ rest

unfoldable pub order_rows : List Objective → List Objective
unfolding insert_row
order_rows [] = []
order_rows (g ∷ rows) = insert_row g (order_rows rows)

unfoldable pub rows_where : (Objective → Bool) → List Objective → List Objective
rows_where p [] = []
rows_where p (g ∷ rows) = let rest = rows_where p rows in if p g then g ∷ rest else rest

unfoldable pub list_active : ObjectiveTable → List Objective
unfolding order_rows rows_where
list_active t = order_rows (rows_where (λ g. is_active g.status) t.rows)

unfoldable pub list_all : ObjectiveTable → List Objective
unfolding order_rows rows_where
list_all t = take 20 (order_rows (rows_where (λ g. not (is_retired g.status)) t.rows))

-- `FindSimilar`: the key is the first 60 bytes.
unfoldable pub find_similar : (List ℕ → List ℕ → Bool) → ObjectiveTable → List ℕ → List Objective
unfolding rows_where
find_similar matches t summary =
    let key = if ltb 60 (length summary) then take 60 summary else summary in
    take 5 (rows_where (λ g. not (is_closed g.status) && matches key g.summary) t.rows)
