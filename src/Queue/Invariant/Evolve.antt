-- ===== src/Queue/Invariant/Evolve.antt =====
-- How one statement may change a row, and what it keeps of the whole table.
use shadowglass_v35_runtime.Common.{◌≤◌, ◌≡◌, refl, ◌∙◌, Bool, true, false, none, arith, is_some}
use shadowglass_v35_runtime.Queue.Row.{Row, State, pending, paused, processing, completed, dead}

abbrev pub is_final : State → Bool
is_final completed = true
is_final dead = true
is_final _ = false

-- The columns that a state fixes.
abbrev pub Agrees : State → Row → Type 0
Agrees pending r = (r.lease_token ≡ none) × (r.lease_expires_at ≡ none)
Agrees paused r = (r.lease_token ≡ none) × (r.lease_expires_at ≡ none)
Agrees processing r =
    (1 ≤ r.attempts)
    × (is_some r.leased_by ≡ true)
    × (is_some r.lease_token ≡ true)
    × (is_some r.lease_expires_at ≡ true)
Agrees completed r =
    (r.lease_token ≡ none) × (r.lease_expires_at ≡ none) × (is_some r.completed_at ≡ true)
Agrees dead r = (r.lease_token ≡ none) × (r.lease_expires_at ≡ none)

-- schema.sql's checks on one row, and more.
pub record IsSound (r : Row) : Type 0 where
  pub agrees : Agrees r.state r
  pub bounded : r.attempts ≤ r.max_attempts
  pub at_least_one : 1 ≤ r.max_attempts
  pub at_most_hundred : r.max_attempts ≤ 100

-- What no statement does to a row: change its work, lower its attempts, or leave a final state.
pub record Evolves (r s : Row) : Type 0 where
  pub same_id : s.id ≡ r.id
  pub same_kind : s.job_kind ≡ r.job_kind
  pub same_payload : s.payload ≡ r.payload
  pub same_version : s.payload_version ≡ r.payload_version
  pub same_key : s.idempotency_key ≡ r.idempotency_key
  pub same_priority : s.priority ≡ r.priority
  pub same_max : s.max_attempts ≡ r.max_attempts
  pub same_creation : s.created_at ≡ r.created_at
  pub attempts_grow : r.attempts ≤ s.attempts
  pub final_stays : is_final r.state ≡ true → s ≡ r

pub Evolves-refl : (r : Row) → Evolves r r
Evolves-refl r = record {
  same_id = refl;
  same_kind = refl;
  same_payload = refl;
  same_version = refl;
  same_key = refl;
  same_priority = refl;
  same_max = refl;
  same_creation = refl;
  attempts_grow = omega arith;
  final_stays = λ _. refl;
}

pub Evolves-trans : {r s t : Row} → Evolves r s → Evolves s t → Evolves r t
Evolves-trans {r} {s} {t} h k = record {
  same_id = k.same_id ∙ h.same_id;
  same_kind = k.same_kind ∙ h.same_kind;
  same_payload = k.same_payload ∙ h.same_payload;
  same_version = k.same_version ∙ h.same_version;
  same_key = k.same_key ∙ h.same_key;
  same_priority = k.same_priority ∙ h.same_priority;
  same_max = k.same_max ∙ h.same_max;
  same_creation = k.same_creation ∙ h.same_creation;
  attempts_grow = omega (arith, h.attempts_grow, k.attempts_grow);
  final_stays = λ f. k.final_stays (rw (h.final_stays f) f) ∙ h.final_stays f;
}
