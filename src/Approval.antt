-- ===== src/Approval.antt =====
-- toolreg/approval_cache.go: approvals that expire.
-- The map is an association list, a new entry in front of the one it hides; `time.Now()` is an
-- argument, in nanoseconds. Every method runs under the mutex.
use sokratos.Base.{
  ℕ, ◌+◌, ◌<◌, ◌≡◌, ◌↔◌, ◌⊎◌, inl, inr, refl, Bool, true, false, Option, none, some, List, [], ◌∷◌,
  ltb, if◌then◌else◌, bytes_eq, bytes_eq_refl, Bool-cases, arith,
}

pub record ApprovalCache : Type 0 where
  pub m : List (List ℕ × ℕ)
  pub ttl : ℕ

unfoldable pub new_approval_cache : ℕ → ApprovalCache
new_approval_cache ttl = record { m = []; ttl = ttl }

-- The map's lookup.
unfoldable pub recorded_at : List (List ℕ × ℕ) → List ℕ → Option ℕ
recorded_at [] key = none
recorded_at ((k, t) ∷ m) key =
    let rest = recorded_at m key in if bytes_eq k key then some t else rest

-- `time.Since(t) < c.ttl`, also for a `t` that lies ahead.
unfoldable pub check : ApprovalCache → List ℕ → ℕ → Bool
unfolding recorded_at
check c key now = elim (recorded_at c.m key) [ none ↦ false | some t ↦ ltb now (t + c.ttl) ]

unfoldable pub record_key : ApprovalCache → List ℕ → ℕ → ApprovalCache
record_key c key now = record c { m = (key, now) ∷ c.m }

-- An approval counts until `ttl` has passed since it was last recorded, and recording it changes no
-- other key.
pub check-record_key :
    (c : ApprovalCache) (key other : List ℕ) (now later : ℕ)
    → ((check (record_key c key now) key later ≡ true) ↔ (later < now + c.ttl))
      × ((bytes_eq key other ≡ true)
          ⊎ (check (record_key c key now) other later ≡ check c other later))
unfolding check record_key recorded_at
check-record_key c key other now later = (
  rw (check, recorded_at, bytes_eq_refl key) (ground arith),
  elim (Bool-cases (bytes_eq key other)) [
    | inl e ↦ inl e
    | inr e ↦ inr (rw (check, recorded_at, e) refl)
  ],
)
