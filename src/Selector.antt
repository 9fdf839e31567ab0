-- ===== src/Selector.antt =====
-- toolreg/selector.go: the tools that a request is offered.
-- Names are bytes. The ranking by the similarity of embeddings, which is floating point over an
-- embedding service, is an argument, best first, and so is `sort.Strings`. The set `selected` is the
-- list of its names; an error of the service ends `Select` before any of this.
pub mod Choice
use sokratos.Base.{
  ℕ, zero, suc, ◌+◌, ◌-◌, ◌*◌, ◌/◌, ◌%◌, ◌^◌, ◌≤◌, ◌<◌, ◌≡◌, ◌≢◌, ◌↔◌, ◌⊎◌, inl, inr, refl, ap, sym,
  ◌∙◌, Bool, true, false, not, ◌&&◌, ◌||◌, Option, none, some, List, [], ◌∷◌, ◌++◌, ltb, leb, ◌==◌,
  if◌then◌else◌, length, take, drop, get_elem?, is_empty, bytes, bytes_eq, ℤ, positive_or, Elem,
  All, Bool-cases, Option-cases, arith, length-append,
}

abbrev pub core_tools : List (List ℕ)
core_tools =
    bytes "search_memory"
    ∷ bytes "save_memory"
    ∷ bytes "set_preference"
    ∷ bytes "update_state"
    ∷ bytes "search_web"
    ∷ bytes "read_url"
    ∷ bytes "deep_think"
    ∷ bytes "consult_deep_thinker"
    ∷ []

abbrev pub affinity_groups : List (List (List ℕ))
affinity_groups =
    (bytes "search_email" ∷ bytes "send_email" ∷ [])
    ∷ (bytes "search_calendar" ∷ bytes "create_event" ∷ [])
    ∷ (bytes "read_file" ∷ bytes "write_file" ∷ bytes "patch_file" ∷ bytes "list_files" ∷ [])
    ∷ (bytes "search_memory" ∷ bytes "save_memory" ∷ bytes "consolidate_memory" ∷ [])
    ∷ (bytes "create_skill" ∷ bytes "manage_skills" ∷ bytes "update_skill" ∷ [])
    ∷ (bytes "delegate_task" ∷ bytes "plan_and_execute" ∷ bytes "manage_tasks" ∷ [])
    ∷ (bytes "manage_routines" ∷ [])
    ∷ (bytes "manage_objectives" ∷ [])
    ∷ []

-- `_, ok := selected[t]`.
unfoldable pub selects : List (List ℕ) → List ℕ → Bool
selects [] t = false
selects (s ∷ selected) t = bytes_eq s t || selects selected t

-- `selected[t] = struct{}{}`.
unfoldable pub select_tool : List (List ℕ) → List ℕ → List (List ℕ)
unfolding selects
select_tool selected t = if selects selected t then selected else t ∷ selected

unfoldable pub select_all : List (List ℕ) → List (List ℕ) → List (List ℕ)
unfolding select_tool
select_all selected [] = selected
select_all selected (t ∷ ts) = select_all (select_tool selected t) ts

-- Whether a tool of the group is selected.
unfoldable pub hit : List (List ℕ) → List (List ℕ) → Bool
unfolding selects
hit selected [] = false
hit selected (t ∷ group) = selects selected t || hit selected group

unfoldable pub select_groups : List (List ℕ) → List (List (List ℕ)) → List (List ℕ)
unfolding hit select_all
select_groups selected [] = selected
select_groups selected (group ∷ groups) =
    select_groups (if hit selected group then select_all selected group else selected) groups

-- The set before it is sorted.
unfoldable pub selection : ℕ → List (List ℕ) → List (List ℕ)
unfolding select_all select_groups
selection k ranked =
    select_all (select_groups (select_all [] (take k ranked)) affinity_groups) core_tools

-- Without embeddings nothing is selected.
unfoldable pub select : (List (List ℕ) → List (List ℕ)) → ℕ → List (List ℕ) → List (List ℕ)
unfolding selection
select sort_strings k ranked = if is_empty ranked then [] else sort_strings (selection k ranked)
