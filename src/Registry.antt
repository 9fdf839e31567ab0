-- ===== src/Registry.antt =====
-- toolreg/registry.go, toolreg/delegate_config.go and confirm.go: which tools run, and who is asked
-- before.
-- A tool is an argument of the model: what it returns for its arguments. Maps are association lists
-- with distinct keys; where Go iterates over one in some order, the order is that of the list. JSON
-- decoding is an argument. Log lines, the callback `OnAuthError` and the text of the question to the
-- user are left out.
pub mod Guards
pub mod Maps
use sokratos.Base.{
  ℕ, zero, suc, ◌+◌, ◌-◌, ◌*◌, ◌/◌, ◌%◌, ◌^◌, ◌≤◌, ◌<◌, ◌≡◌, ◌≢◌, ◌↔◌, ◌⊎◌, inl, inr, refl, ap, sym,
  subst, ◌∙◌, Bool, true, false, not, ◌&&◌, ◌||◌, Option, none, some, List, [], ◌∷◌, ◌++◌, ltb, leb,
  ◌==◌, if◌then◌else◌, length, take, drop, get_elem?, is_empty, bytes, bytes_eq, bytes_eq_refl,
  bytes_eq_sound, ℤ, pos, negsuc, positive_or, Elem, All, Bool-cases, Option-cases, arith,
  length-append, has_prefix, length-snoc, length-take-le, length-drop,
}
use sokratos.Approval.{ApprovalCache, check, record_key, new_approval_cache}

pub record ParamSchema : Type 0 where
  pub name : List ℕ
  pub kind : List ℕ
  pub required : Bool

pub record ToolSchema : Type 0 where
  pub name : List ℕ
  pub params : List ParamSchema
  pub description : List ℕ
  pub progress_label : List ℕ
  pub is_skill : Bool
  pub confirm_cache_key : Option (List ℕ → List ℕ)

-- An error that is forwarded to the LLM as a result, an error of the Google services, or another one.
pub data ToolAnswer : Type 0 where
  result : List ℕ → ToolAnswer
  tool_error : List ℕ → ToolAnswer
  auth_error other_error : List ℕ → ToolAnswer

abbrev pub ToolFunc : Type 0
ToolFunc = List ℕ → ToolAnswer

unfoldable pub lookup {ℓ} : {A : Type ℓ} → List (List ℕ × A) → List ℕ → Option A
lookup [] name = none
lookup ((k, v) ∷ m) name = let rest = lookup m name in if bytes_eq k name then some v else rest

unfoldable pub remove {ℓ} : {A : Type ℓ} → List (List ℕ × A) → List ℕ → List (List ℕ × A)
remove [] name = []
remove ((k, v) ∷ m) name =
    let rest = remove m name in if bytes_eq k name then rest else (k, v) ∷ rest

unfoldable pub assign {ℓ} : {A : Type ℓ} → List (List ℕ × A) → List ℕ → A → List (List ℕ × A)
unfolding remove
assign m name v = (name, v) ∷ remove m name

pub record Registry : Type 0 where
  pub tools : List (List ℕ × ToolFunc)
  pub schemas : List (List ℕ × ToolSchema)

unfoldable pub new_registry : Registry
new_registry = record { tools = []; schemas = [] }

unfoldable pub has : Registry → List ℕ → Bool
unfolding lookup
has r name = elim (lookup r.tools name) [ none ↦ false | some f ↦ true ]

unfoldable pub unregister : Registry → List ℕ → Registry
unfolding remove
unregister r name = record { tools = remove r.tools name; schemas = remove r.schemas name }

unfoldable pub register : Registry → List ℕ → ToolFunc → Option ToolSchema → Registry
unfolding assign
register r name fn none = record r { tools = assign r.tools name fn }
register r name fn (some schema) = record {
  tools = assign r.tools name fn;
  schemas = assign r.schemas name schema;
}

abbrev pub respond_schema : ToolSchema
respond_schema = record {
  name = bytes "respond";
  params = record { name = bytes "text"; kind = bytes "string"; required = true } ∷ [];
  description = [];
  progress_label = [];
  is_skill = false;
  confirm_cache_key = none;
}

unfoldable pub values {ℓ} : {A : Type ℓ} → List (List ℕ × A) → List A
values [] = []
values ((k, v) ∷ m) = v ∷ values m

unfoldable pub all_schemas : Registry → List ToolSchema
unfolding values
all_schemas r = values r.schemas ++ respond_schema ∷ []

unfoldable pub schema_for : Registry → List ℕ → Option ToolSchema
unfolding lookup
schema_for r name = lookup r.schemas name

unfoldable pub schemas_for_tools : Registry → List (List ℕ) → List ToolSchema
unfolding schema_for
schemas_for_tools r [] = []
schemas_for_tools r (name ∷ names) =
    let rest = schemas_for_tools r names in
    elim (schema_for r name) [ none ↦ rest | some s ↦ s ∷ rest ]

unfoldable pub get_progress_label : Registry → List ℕ → List ℕ
unfolding schema_for
get_progress_label r name = elim (schema_for r name) [
  | none ↦ bytes "Working on it..."
  | some s ↦ if is_empty s.progress_label then bytes "Working on it..." else s.progress_label
]

-- The separator stands before each parameter but the first; a star marks a required one.
unfoldable pub index_params : Bool → List ParamSchema → List ℕ
index_params is_first [] = []
index_params is_first (p ∷ params) =
    (if is_first then [] else bytes ", ")
    ++ ((if p.required then bytes "*" else []) ++ (p.name ++ index_params false params))

abbrev pub em_dash : List ℕ
em_dash = 32 ∷ 226 ∷ 128 ∷ 148 ∷ 32 ∷ []

unfoldable pub index_line : ToolSchema → List ℕ
unfolding index_params
index_line s =
    bytes "- "
    ++ (s.name
        ++ ((if is_empty s.params
              then []
              else bytes "(" ++ (index_params true s.params ++ bytes ")"))
            ++ ((if is_empty s.description then [] else em_dash ++ s.description) ++ 10 ∷ [])))

unfoldable pub compact_index_of : List ToolSchema → List ℕ
unfolding index_line
compact_index_of [] = []
compact_index_of (s ∷ schemas) =
    let rest = compact_index_of schemas in
    if bytes_eq s.name (bytes "respond") || s.is_skill then rest else index_line s ++ rest

unfoldable pub compact_index : Registry → List ℕ
unfolding compact_index_of values
compact_index r = compact_index_of (values r.schemas)

unfoldable pub skill_params : Bool → List ParamSchema → List ℕ
skill_params is_first [] = []
skill_params is_first (p ∷ params) =
    (if is_first then [] else bytes ", ")
    ++ (34 ∷ p.name
        ++ (34 ∷ bytes ": "
            ++ (34 ∷ bytes "<"
                ++ (p.kind ++ (bytes ">" ++ (34 ∷ [] ++ skill_params false params))))))

unfoldable pub skill_line : ToolSchema → List ℕ
unfolding skill_params
skill_line s =
    bytes "- "
    ++ (s.name
        ++ (bytes ": "
            ++ (s.description
                ++ ((if is_empty s.params
                      then bytes " No arguments."
                      else bytes " Arguments: {" ++ (skill_params true s.params ++ bytes "}"))
                    ++ 10 ∷ []))))

unfoldable pub skill_lines : List ToolSchema → List ℕ
unfolding skill_line
skill_lines [] = []
skill_lines (s ∷ schemas) =
    let rest = skill_lines schemas in
    if not s.is_skill || is_empty s.description then rest else skill_line s ++ rest

unfoldable pub dynamic_skill_descriptions : Registry → List ℕ
unfolding skill_lines values
dynamic_skill_descriptions r =
    let lines = skill_lines (values r.schemas) in
    if is_empty lines then [] else bytes "## Skills" ++ (10 ∷ 10 ∷ lines)

unfoldable pub full_tool_index : Registry → List ℕ
unfolding compact_index dynamic_skill_descriptions
full_tool_index r =
    let skills = dynamic_skill_descriptions r in
    if is_empty skills then compact_index r else compact_index r ++ (10 ∷ skills)

pub record ToolCall : Type 0 where
  pub name : List ℕ
  pub arguments : List ℕ

-- What `Execute` returns: its string, or its error. `ran` is the tool that ran.
pub data Outcome : Type 0 where
  ok : List ℕ → Outcome
  invalid_call : Outcome
  unknown_tool tool_failed : List ℕ → Outcome

pub record Executed : Type 0 where
  pub outcome : Outcome
  pub ran : Option (List ℕ)

-- `DelegateConfig`: the names that are allowed.
unfoldable pub is_allowed : List (List ℕ) → List ℕ → Bool
is_allowed [] name = false
is_allowed (n ∷ allowed) name = bytes_eq n name || is_allowed allowed name

module _ (decode : List ℕ → Option ToolCall) (auth_message : List ℕ) where
  unfoldable pub answered : ToolAnswer → Outcome
  answered (result text) = ok text
  answered (tool_error message) = ok message
  answered (auth_error e) = ok auth_message
  answered (other_error e) = tool_failed e

  unfoldable pub call_found : ToolCall → Option ToolFunc → Executed
  unfolding answered
  call_found tc none = record { outcome = unknown_tool tc.name; ran = none }
  call_found tc (some fn) = record { outcome = answered (fn tc.arguments); ran = some tc.name }

  unfoldable pub execute : Registry → List ℕ → Executed
  unfolding call_found lookup
  execute r raw = elim (decode raw) [
    | none ↦ record { outcome = invalid_call; ran = none }
    | some tc ↦ call_found tc (lookup r.tools tc.name)
  ]

  unfoldable pub not_available : List ℕ → Executed
  not_available name = record {
    outcome = ok (bytes "tool " ++ (34 ∷ name ++ (34 ∷ bytes " is not available")));
    ran = none;
  }

  -- `NewScopedToolExec`, for a name that `%q` does not escape.
  unfoldable pub scoped_exec : Registry → List (List ℕ) → List ℕ → Executed
  unfolding is_allowed execute not_available
  scoped_exec r allowed raw = elim (decode raw) [
    | none ↦ record { outcome = invalid_call; ran = none }
    | some tc ↦ if is_allowed allowed tc.name then execute r raw else not_available tc.name
  ]

  abbrev pub key_of : ToolCall → Option ToolSchema → List ℕ
  key_of tc none = tc.name
  key_of tc (some s) = elim s.confirm_cache_key [
    | none ↦ tc.name
    | some f ↦ if is_empty (f tc.arguments) then tc.name else f tc.arguments
  ]

  -- What the user answers: an error, no, or yes.
  abbrev pub after_answer :
      Registry → ApprovalCache → List ℕ → List ℕ → Option Bool → ℕ → ApprovalCache × Executed
  after_answer r cache key raw none now = (
    cache,
    record {
      outcome = ok (bytes "Action cancelled" ++ (em_dash ++ bytes "confirmation error."));
      ran = none;
    },
  )
  after_answer r cache key raw (some false) now =
      (cache, record { outcome = ok (bytes "Action cancelled by user."); ran = none })
  after_answer r cache key raw (some true) now = (record_key cache key now, execute r raw)

  -- `confirmToolExec` at `now`, where the user answers `later`.
  unfoldable pub confirm_call :
      Registry
      → (List ℕ → Bool)
      → ApprovalCache
      → List ℕ
      → ToolCall
      → Option Bool
      → ℕ
      → ℕ
      → ApprovalCache × Executed
  unfolding schema_for
  confirm_call r confirmed cache raw tc answer now later =
      let key = key_of tc (schema_for r tc.name) in
      if confirmed tc.name
      then (if check cache key now
          then (cache, execute r raw)
          else after_answer r cache key raw answer later)
      else (cache, execute r raw)

  unfoldable pub confirm_exec :
      Registry
      → (List ℕ → Bool)
      → ApprovalCache
      → List ℕ
      → Option Bool
      → ℕ
      → ℕ
      → ApprovalCache × Executed
  unfolding confirm_call
  confirm_exec r confirmed cache raw answer now later = elim (decode raw) [
    | none ↦ (cache, execute r raw)
    | some tc ↦ confirm_call r confirmed cache raw tc answer now later
  ]
