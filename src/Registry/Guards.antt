-- ===== src/Registry/Guards.antt =====
-- What guards a tool in toolreg/registry.go, toolreg/delegate_config.go and confirm.go.
use sokratos.Base.{
  ℕ, ◌≡◌, ◌⊎◌, inl, inr, refl, Bool, true, false, Option, none, some, List, bytes_eq, Bool-cases,
  Option-cases,
}
use sokratos.Approval.{ApprovalCache, check, record_key}
use sokratos.Registry.{
  ToolSchema, ToolFunc, Registry, lookup, assign, has, register, unregister, schema_for, ToolCall,
  Executed, call_found, execute, is_allowed, not_available, scoped_exec, key_of, after_answer,
  confirm_call, confirm_exec,
}
use sokratos.Registry.Maps.{lookup_removed, lookup_kept, lookup_assigned, lookup_beside}

tools-register :
    (r : Registry) (name : List ℕ) (fn : ToolFunc) (schema : Option ToolSchema)
    → (register r name fn schema).tools ≡ assign r.tools name fn
unfolding register
tools-register r name fn none = refl
tools-register r name fn (some schema) = refl

-- A registered tool is there, an unregistered one is not, and either leaves the other tools alone.
has-register :
    (r : Registry) (name other : List ℕ) (fn : ToolFunc) (schema : Option ToolSchema)
    → (has (register r name fn schema) name ≡ true)
      × (has (unregister r name) name ≡ false)
      × ((bytes_eq name other ≡ true)
          ⊎ ((has (register r name fn schema) other ≡ has r other)
              × (has (unregister r name) other ≡ has r other)))
unfolding has register unregister
has-register r name other fn schema = (
  rw (has, tools-register r name fn schema, lookup_assigned r.tools name fn) refl,
  rw (has, unregister, lookup_removed r.tools name) refl,
  elim (Bool-cases (bytes_eq name other)) [
    | inl e ↦ inl e
    | inr e ↦ inr (
      rw (has, tools-register r name fn schema, lookup_beside r.tools name other fn e) refl,
      rw (has, unregister, lookup_kept r.tools name other e) refl,
    )
  ],
)

module _ (decode : List ℕ → Option ToolCall) (auth_message : List ℕ) where
  -- Nothing ran, or the decoded call's own tool did.
  abbrev Own : ToolCall → Executed → Type 0
  Own tc e = (e.ran ≡ none) ⊎ (e.ran ≡ some tc.name)

  call_found-Own :
      (tc : ToolCall) (o : Option ToolFunc) → Own tc (call_found decode auth_message tc o)
  unfolding call_found
  call_found-Own tc none = inl refl
  call_found-Own tc (some fn) = inr refl

  execute-Own :
      (r : Registry) (raw : List ℕ) (tc : ToolCall)
      → decode raw ≡ some tc
      → Own tc (execute decode auth_message r raw)
  unfolding execute
  execute-Own r raw tc h = rw (execute, h) (call_found-Own tc (lookup r.tools tc.name))

  -- A scoped executor runs no tool, or one that the configuration allows.
  pub scoped_exec_allowed :
      (r : Registry) (allowed : List (List ℕ)) (raw : List ℕ)
      → ((scoped_exec decode auth_message r allowed raw).ran ≡ none)
        ⊎ ((name : List ℕ) × ((scoped_exec decode auth_message r allowed raw).ran ≡ some name)
            × (is_allowed allowed name ≡ true))
  unfolding scoped_exec not_available
  scoped_exec_allowed r allowed raw = elim (Option-cases (decode raw)) [
    | inl e ↦ rw (scoped_exec, e) (inl refl)
    | inr (tc, e) ↦ elim (Bool-cases (is_allowed allowed tc.name)) [
      | inl a ↦
          rw (scoped_exec, e, a)
            (elim (execute-Own r raw tc e) [ inl n ↦ inl n | inr own ↦ inr (tc.name, own, a) ])
      | inr a ↦ rw (scoped_exec, e, a) (inl refl)
    ]
  ]

  -- Why a call of a confirmed tool may go on: the user says yes now, or said so within the time that
  -- an approval lasts.
  abbrev pub IsApproved : ApprovalCache → List ℕ → Option Bool → ℕ → Type 0
  IsApproved cache key answer now = (answer ≡ some true) ⊎ (check cache key now ≡ true)

  -- A call of a tool that needs a confirmation runs nothing, unless the user approves of it now, or
  -- an approval with the same key has not expired; and an approval is recorded only when the user
  -- gives it.
  pub confirm_exec_guards :
      (r : Registry) (confirmed : List ℕ → Bool) (cache : ApprovalCache) (raw : List ℕ)
      (tc : ToolCall) (answer : Option Bool) (now later : ℕ)
      → decode raw ≡ some tc
      → confirmed tc.name ≡ true
      → let key = key_of decode auth_message tc (schema_for r tc.name) in
        let out = confirm_exec decode auth_message r confirmed cache raw answer now later in
        ((out.1.ran ≡ none) ⊎ IsApproved cache key answer now)
        × ((out.0 ≡ cache) ⊎ ((answer ≡ some true) × (out.0 ≡ record_key cache key later)))
  unfolding confirm_exec confirm_call
  confirm_exec_guards r confirmed cache raw tc answer now later h c =
      elim (Bool-cases (check cache (key_of decode auth_message tc (schema_for r tc.name)) now)) [
        | inl e ↦ rw (confirm_exec, h, c, e) (inr (inr refl), inl refl)
        | inr e ↦
            rw (confirm_exec, h, c, e)
              (elim (asked answer).0 [ inl n ↦ inl n | inr y ↦ inr (inl y) ], (asked answer).1)
      ]
    where
      asked :
          (answer : Option Bool)
          → let key = key_of decode auth_message tc (schema_for r tc.name) in
            let out = after_answer decode auth_message r cache key raw answer later in
            ((out.1.ran ≡ none) ⊎ (answer ≡ some true))
            × ((out.0 ≡ cache) ⊎ ((answer ≡ some true) × (out.0 ≡ record_key cache key later)))
      asked none = (inl refl, inl refl)
      asked (some false) = (inl refl, inl refl)
      asked (some true) = (inr refl, inr (refl, refl))
