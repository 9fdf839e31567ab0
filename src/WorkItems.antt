-- ===== src/WorkItems.antt =====
-- The table `work_items`, which worktracker/work_tracker.go, tools/task_queue.go and
-- engine/scheduler.go share.
-- A row keeps the columns that the code decides by. The serial number of an inserted row is
-- `next_id`. Texts are bytes, times are nanoseconds, and `now()` is an argument.
pub mod Table
use sokratos.Base.{
  ℕ, zero, suc, ◌+◌, ◌-◌, ◌*◌, ◌/◌, ◌%◌, ◌^◌, ◌≤◌, ◌<◌, ◌≡◌, ◌≢◌, ◌↔◌, ◌⊎◌, inl, inr, refl, ap, sym,
  subst, ◌∙◌, Bool, true, false, not, ◌&&◌, ◌||◌, Option, none, some, List, [], ◌∷◌, ◌++◌, ltb, leb,
  ◌==◌, if◌then◌else◌, length, take, drop, get_elem?, is_empty, bytes, bytes_eq, bytes_eq_refl,
  bytes_eq_sound, ℤ, pos, negsuc, positive_or, Elem, All, Bool-cases, Option-cases, arith,
  length-append, has_prefix, length-snoc, length-take-le, length-drop,
}

pub data Status : Type 0 where
  pending running completed failed cancelled : Status

abbrev pub is_pending : Status → Bool
is_pending pending = true
is_pending _ = false

abbrev pub is_running : Status → Bool
is_running running = true
is_running _ = false

-- `status IN ('completed', 'failed', 'cancelled')`.
abbrev pub is_over : Status → Bool
is_over pending = false
is_over running = false
is_over _ = true

-- A nullable column is an `Option`; the recurrence is 0 for none.
pub record WorkItem : Type 0 where
  pub id : ℕ
  pub work_type : List ℕ
  pub directive : List ℕ
  pub status : Status
  pub due_at : Option ℕ
  pub recurrence : ℤ
  pub timeout_at : Option ℕ
  pub completed_at : Option ℕ

pub record WorkTable : Type 0 where
  pub items : List WorkItem
  pub next_id : ℕ

abbrev pub scheduled : List ℕ
scheduled = bytes "scheduled"

-- `INSERT … RETURNING id`.
unfoldable pub insert :
    WorkTable → List ℕ → List ℕ → Status → Option ℕ → ℤ → Option ℕ → WorkTable × ℕ
insert t work_type directive status due_at recurrence timeout_at = (
  record {
    items =
        t.items
        ++ record {
          id = t.next_id;
          work_type = work_type;
          directive = directive;
          status = status;
          due_at = due_at;
          recurrence = recurrence;
          timeout_at = timeout_at;
          completed_at = none;
        }
          ∷ [];
    next_id = suc t.next_id;
  },
  t.next_id,
)

-- `UPDATE work_items SET status = …, completed_at = now() WHERE …`.
unfoldable pub update_where : (WorkItem → Bool) → Status → ℕ → List WorkItem → List WorkItem
update_where p status now [] = []
update_where p status now (i ∷ items) =
    let rest = update_where p status now items in
    if p i then record i { status = status; completed_at = some now } ∷ rest else i ∷ rest

abbrev pub with_id : ℕ → WorkItem → Bool
with_id id i = i.id == id

-- `SELECT … WHERE id = $1`.
unfoldable pub find : List WorkItem → ℕ → Option WorkItem
find [] id = none
find (i ∷ items) id = let rest = find items id in if i.id == id then some i else rest

-- `DELETE … WHERE …`.
unfoldable pub delete_where : (WorkItem → Bool) → List WorkItem → List WorkItem
delete_where p [] = []
delete_where p (i ∷ items) = let rest = delete_where p items in if p i then rest else i ∷ rest

-- `SELECT … WHERE …`.
unfoldable pub select_where : (WorkItem → Bool) → List WorkItem → List WorkItem
select_where p [] = []
select_where p (i ∷ items) = let rest = select_where p items in if p i then i ∷ rest else rest
