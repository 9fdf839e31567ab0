-- ===== src/Conversation/State/Prefs.antt =====
-- The preferences of engine/state.go in memory and in the table user_preferences.
use sokratos.Base.{
  ℕ, ◌≡◌, ◌⊎◌, inl, inr, refl, sym, subst, ◌∙◌, Bool, true, false, none, some, List, [], ◌∷◌,
  bytes_eq, bytes_eq_sound, Bool-cases, All, if◌then◌else◌,
}
use sokratos.Registry.{lookup, remove, assign}
use sokratos.Registry.Maps.{
  lookup_removed, lookup_kept, lookup-assign, lookup_beside, HasDistinctKeys,
  remove-HasDistinctKeys, assign-HasDistinctKeys,
}
use sokratos.Conversation.State.{
  StateManager, load_rows, load_prefs, refresh_prefs, set_pref, delete_pref,
}

abbrev pub PrefTable : Type 0
PrefTable = List (List ℕ × List ℕ)

-- The calls, and whether the database takes their statements.
pub data PrefCall : Type 0 where
  sets : Bool → List ℕ → List ℕ → PrefCall
  deletes : Bool → List ℕ → PrefCall
  refreshes : (List ℕ × List ℕ → Bool) → Bool → PrefCall

unfoldable pub after_call : StateManager × PrefTable → PrefCall → StateManager × PrefTable
unfolding set_pref delete_pref refresh_prefs
after_call s (sets ok key value) = (set_pref ok key value s).0
after_call s (deletes ok key) = (delete_pref ok key s).0
after_call (sm, table) (refreshes scans ok) = (refresh_prefs scans ok sm table, table)

unfoldable pub after_calls : StateManager × PrefTable → List PrefCall → StateManager × PrefTable
unfolding after_call
after_calls s [] = s
after_calls s (c ∷ calls) = after_calls (after_call s c) calls

-- No statement that changes the key is refused.
abbrev pub Spares : List ℕ → PrefCall → Type 0
Spares key (sets ok k value) = (bytes_eq k key ≡ false) ⊎ (ok ≡ true)
Spares key (deletes ok k) = (bytes_eq k key ≡ false) ⊎ (ok ≡ true)
Spares key (refreshes scans ok) = Unit

abbrev pub Agrees : List ℕ → StateManager × PrefTable → Type 0
Agrees key (sm, table) =
    HasDistinctKeys table × (lookup sm.state.user_prefs key ≡ lookup table key) × (sm.pool ≡ true)

-- Writing back what is there changes nothing, and neither does another key.
lookup-scanned :
    (scanned : Bool) (prefs : PrefTable) (k v key : List ℕ)
    → (bytes_eq k key ≡ false) ⊎ (lookup prefs key ≡ some v)
    → lookup (if scanned then assign prefs k v else prefs) key ≡ lookup prefs key
lookup-scanned true prefs k v key h = elim (Bool-cases (bytes_eq k key)) [
  | inl e ↦ elim h [
    | inl other ↦ cc (e, other)
    | inr there ↦ lookup-assign prefs k key v e ∙ sym there
  ]
  | inr e ↦ lookup_beside prefs k key v e
]
lookup-scanned false prefs k v key h = refl

abbrev Matches : PrefTable → PrefTable → List ℕ → Type 0
Matches rows prefs key = (lookup rows key ≡ none) ⊎ (lookup rows key ≡ lookup prefs key)

Matches-head :
    (k v : List ℕ) (rows prefs : PrefTable) (key : List ℕ)
    → bytes_eq k key ≡ true
    → Matches ((k, v) ∷ rows) prefs key
    → lookup prefs key ≡ some v
unfolding lookup
Matches-head k v rows prefs key e (inl absent) = absurd (cc (rw e at absent))
Matches-head k v rows prefs key e (inr same) = sym (rw e at same)

Matches-tail :
    (k v : List ℕ) (rows prefs : PrefTable) (key : List ℕ)
    → bytes_eq k key ≡ false
    → Matches ((k, v) ∷ rows) prefs key
    → (prefs' : PrefTable) → lookup prefs' key ≡ lookup prefs key
    → Matches rows prefs' key
unfolding lookup
Matches-tail k v rows prefs key e (inl absent) prefs' kept = inl (rw e at absent)
Matches-tail k v rows prefs key e (inr same) prefs' kept = inr ((rw e at same) ∙ sym kept)

lookup-load_rows :
    (scans : List ℕ × List ℕ → Bool) (prefs rows : PrefTable) (key : List ℕ)
    → HasDistinctKeys rows
    → Matches rows prefs key
    → lookup (load_rows scans prefs rows) key ≡ lookup prefs key
unfolding load_rows
lookup-load_rows scans prefs [] key d h = refl
lookup-load_rows scans prefs ((k, v) ∷ rows) key d h =
    let prefs' = if scans (k, v) then assign prefs k v else prefs in
    elim (Bool-cases (bytes_eq k key)) [
      | inl e ↦
          lookup-load_rows scans prefs' rows key d.1
            (inl (subst (λ x. lookup rows x ≡ none) (bytes_eq_sound k key e) d.0))
          ∙ lookup-scanned (scans (k, v)) prefs k v key (inr (Matches-head k v rows prefs key e h))
      | inr e ↦
          let kept = lookup-scanned (scans (k, v)) prefs k v key (inl e) in
          lookup-load_rows scans prefs' rows key d.1
            (Matches-tail k v rows prefs key e h prefs' kept)
          ∙ kept
    ]

-- Both maps change alike, or only the one in memory does, and then at another key.
assign_both :
    (prefs table : PrefTable) (k v key : List ℕ)
    → lookup prefs key ≡ lookup table key
    → lookup (assign prefs k v) key ≡ lookup (assign table k v) key
assign_both prefs table k v key same = elim (Bool-cases (bytes_eq k key)) [
  | inl e ↦ lookup-assign prefs k key v e ∙ sym (lookup-assign table k key v e)
  | inr e ↦ lookup_beside prefs k key v e ∙ (same ∙ sym (lookup_beside table k key v e))
]

remove_both :
    (prefs table : PrefTable) (k key : List ℕ)
    → lookup prefs key ≡ lookup table key
    → lookup (remove prefs k) key ≡ lookup (remove table k) key
remove_both prefs table k key same = elim (Bool-cases (bytes_eq k key)) [
  | inl e ↦
      subst (λ x. lookup (remove prefs k) x ≡ lookup (remove table k) x) (bytes_eq_sound k key e)
        (lookup_removed prefs k ∙ sym (lookup_removed table k))
  | inr e ↦ lookup_kept prefs k key e ∙ (same ∙ sym (lookup_kept table k key e))
]

after_call-Agrees :
    (c : PrefCall) (s : StateManager × PrefTable) (key : List ℕ)
    → Agrees key s
    → Spares key c
    → Agrees key (after_call s c)
unfolding after_call set_pref delete_pref refresh_prefs load_prefs
after_call-Agrees (sets true k v) (sm, table) key (d, same, pool) h =
    rw pool
      (assign-HasDistinctKeys table k v d, assign_both sm.state.user_prefs table k v key same, refl)
after_call-Agrees (sets false k v) (sm, table) key (d, same, pool) (inl other) =
    rw pool (d, lookup_beside sm.state.user_prefs k key v other ∙ same, refl)
after_call-Agrees (sets false k v) (sm, table) key a (inr refused) = absurd (cc refused)
after_call-Agrees (deletes true k) (sm, table) key (d, same, pool) h =
    rw pool
      (remove-HasDistinctKeys table k d, remove_both sm.state.user_prefs table k key same, refl)
after_call-Agrees (deletes false k) (sm, table) key (d, same, pool) (inl other) =
    rw pool (d, lookup_kept sm.state.user_prefs k key other ∙ same, refl)
after_call-Agrees (deletes false k) (sm, table) key a (inr refused) = absurd (cc refused)
after_call-Agrees (refreshes scans true) (sm, table) key (d, same, pool) h =
    rw pool
      (d, lookup-load_rows scans sm.state.user_prefs table key d (inr (sym same)) ∙ same, refl)
after_call-Agrees (refreshes scans false) (sm, table) key (d, same, pool) h =
    rw pool (d, same, refl)

-- With a database whose table user_preferences has each key at most once, and a key on which memory
-- and table agree, they still do so after any calls of `SetPref`, `DeletePref` and `RefreshPrefs`
-- among which no statement that changes this key is refused: statements that fail for other keys,
-- reloads that fail and rows that cannot be scanned do no harm, and the table still has each key at
-- most once.
pub after_calls-Agrees :
    (calls : List PrefCall) (s : StateManager × PrefTable) (key : List ℕ)
    → Agrees key s
    → All (Spares key) calls
    → Agrees key (after_calls s calls)
unfolding after_calls
after_calls-Agrees [] s key a h = a
after_calls-Agrees (c ∷ calls) s key a h =
    after_calls-Agrees calls (after_call s c) key (after_call-Agrees c s key a h.0) h.1
