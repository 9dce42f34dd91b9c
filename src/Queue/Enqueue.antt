-- ===== src/Queue/Enqueue.antt =====
-- storage.py: `enqueue_job`; service.py: `ShadowglassService.set_paused`.
use shadowglass_v35_runtime.Common.{
  ℕ, suc, String, Bool, true, false, not, ◌&&◌, ◌||◌, Option, none, some, [], ◌∷◌, ◌++◌, find, leb,
  ◌==◌, str_eq, if◌then◌else◌,
}
use shadowglass_v35_runtime.Common.Int.{ℤ}
use shadowglass_v35_runtime.Common.Text.{is_empty, strip}
use shadowglass_v35_runtime.Common.Result.{
  Result, ok, err, value_error, lookup_error, idempotency_conflict, not_found, job_state_conflict,
  raise_if, ◌>>◌,
}
use shadowglass_v35_runtime.Json.{Payload, same_text}
use shadowglass_v35_runtime.Queue.Row.{Row, Queue, State, pending, paused, is_pending, is_paused}
use shadowglass_v35_runtime.Queue.Table.{update_where}
use shadowglass_v35_runtime.Queue.Claim.{has_id}

-- What the caller of an INSERT gives; the other columns have schema.sql's defaults.
pub record Work : Type 0 where
  pub job_kind : String
  pub payload : Payload
  pub payload_version : ℕ
  pub idempotency_key : String
  pub priority : ℤ
  pub max_attempts : ℕ

abbrev pub new_row : ℕ → ℕ → Work → Row
new_row now id w = record {
  id = id;
  job_kind = w.job_kind;
  payload = w.payload;
  payload_version = w.payload_version;
  idempotency_key = w.idempotency_key;
  state = pending;
  priority = w.priority;
  available_at = now;
  attempts = 0;
  max_attempts = w.max_attempts;
  leased_by = none;
  lease_token = none;
  lease_expires_at = none;
  last_error = none;
  created_at = now;
  updated_at = now;
  completed_at = none;
}

unfoldable pub has_key : String → Row → Bool
has_key key r = str_eq r.idempotency_key key

-- INSERT … ON CONFLICT (idempotency_key) DO NOTHING RETURNING id. The identity sequence is not
-- advanced on a conflict, so ids have no gaps here.
unfoldable pub insert_work : ℕ → Work → Queue → Option ℕ × Queue
unfolding has_key
insert_work now w q = elim (find (has_key w.idempotency_key) q.rows) [
  | some r ↦ (none, q)
  | none ↦ (
    some q.next_id,
    record q { rows = q.rows ++ new_row now q.next_id w ∷ []; next_id = suc q.next_id },
  )
]

-- The existing row has the same kind, version and canonical payload.
unfoldable pub same_work : Work → Row → Bool
unfolding same_text
same_work w r =
    str_eq r.job_kind w.job_kind
    && r.payload_version == w.payload_version
    && same_text r.payload w.payload

abbrev pub replay : Work → Queue → Option Row → Result ((ℕ × Bool) × Queue)
replay w q none = err lookup_error "expected a database row"
replay w q (some r) =
    if same_work w r
    then ok ((r.id, false), q)
    else err idempotency_conflict "idempotency key is already bound to different work"

abbrev pub enqueued : Work → Option ℕ × Queue → Result ((ℕ × Bool) × Queue)
enqueued w (some id, q) = ok ((id, true), q)
enqueued w (none, q) = replay w q (find (has_key w.idempotency_key) q.rows)

-- The result is `(id, created)`.
unfoldable pub enqueue_job : ℕ → Work → Queue → Result ((ℕ × Bool) × Queue)
unfolding insert_work same_work
enqueue_job now w q = do
  raise_if (is_empty (strip w.job_kind) || is_empty (strip w.idempotency_key)) value_error
      "job_kind and idempotency_key must be non-empty"
  raise_if (not (leb 1 w.max_attempts && leb w.max_attempts 100)) value_error
      "max_attempts must be between 1 and 100"
  enqueued w (insert_work now w q)

-- `desired`, and the state that the switch starts from
abbrev pub desired : Bool → State
desired pausing = if pausing then paused else pending

abbrev pub is_required : Bool → State → Bool
is_required pausing s = if pausing then is_pending s else is_paused s

abbrev pub is_desired : Bool → State → Bool
is_desired pausing s = if pausing then is_paused s else is_pending s

-- WHERE id = %s AND state = %s
unfoldable pub is_switchable : Bool → ℕ → Row → Bool
is_switchable pausing job_id r = r.id == job_id && is_required pausing r.state

abbrev pub switch : ℕ → Bool → Row → Row
switch now pausing r = record r { state = desired pausing; updated_at = now }

abbrev pub unswitched : Bool → Queue → Option Row → Result ((ℕ × State) × Queue)
unswitched pausing q none = err not_found "queue job not found"
unswitched pausing q (some r) =
    if is_desired pausing r.state
    then ok ((r.id, r.state), q)
    else err job_state_conflict "queue job cannot transition from its current state"

unfoldable pub set_paused : ℕ → ℕ → Bool → Queue → Result ((ℕ × State) × Queue)
unfolding is_switchable update_where
set_paused now job_id pausing q = elim (find (is_switchable pausing job_id) q.rows) [
  | some r ↦ ok (
    (r.id, desired pausing),
    record q { rows = update_where (is_switchable pausing job_id) (switch now pausing) q.rows },
  )
  | none ↦ unswitched pausing q (find (has_id job_id) q.rows)
]
