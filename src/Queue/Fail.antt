-- ===== src/Queue/Fail.antt =====
-- storage.py: `fail_job`, `dead_letter_job`, `cancel_acceptance_canary` and `get_queue_job_state`.
-- A raise rolls the transaction back, so it carries no queue.
use shadowglass_v35_runtime.Common.{
  ℕ, ◌+◌, ◌*◌, ◌-◌, ◌^◌, String, Bool, not, ◌&&◌, ◌||◌, Option, none, some, any, count, find, leb,
  ltb, ◌==◌, str_eq, some_eq, if◌then◌else◌,
}
use Prim.Native.Nat.{min}
use Prim.Native.String
use shadowglass_v35_runtime.Common.Text.{take, collapse, or_text}
use shadowglass_v35_runtime.Common.Result.{
  Result, ok, err, value_error, lookup_error, raise_if, ◌>>◌,
}
use shadowglass_v35_runtime.Queue.Row.{Row, Queue, State, pending, dead, is_open}
use shadowglass_v35_runtime.Queue.Table.{second, update_where, insert_select, letter_of}
use shadowglass_v35_runtime.Queue.Lease.{held_by}
use shadowglass_v35_runtime.Queue.Recover.{bury}
use shadowglass_v35_runtime.Queue.Claim.{has_id}

-- `" ".join(str(error).split())[:1000] or fallback`
unfoldable pub safe_error : String → String → String
unfolding collapse
safe_error error fallback = or_text (take 1000 (collapse error)) fallback

-- min(max_backoff_seconds, base_backoff_seconds * (2 ** (attempts - 1)))
unfoldable pub backoff : ℕ → ℕ → ℕ → ℕ
backoff base most attempts = min most (base * 2 ^ (attempts - 1))

-- SET state = 'pending', …, available_at = clock_timestamp() + make_interval(secs => %s)
abbrev pub postpone : ℕ → ℕ → String → Row → Row
postpone now seconds error r = record r {
  state = pending;
  leased_by = none;
  lease_token = none;
  lease_expires_at = none;
  available_at = now + seconds * second;
  last_error = some error;
  updated_at = now;
}

-- WHERE id = %s AND lease_token = %s
unfoldable pub has_token : ℕ → ℕ → Row → Bool
has_token job_id token r = r.id == job_id && some_eq r.lease_token token

-- INSERT … SELECT … WHERE noted, then UPDATE … SET state = 'dead' WHERE test.
unfoldable pub bury_held : ℕ → (Row → Bool) → (Row → Bool) → String → Queue → Queue
unfolding insert_select update_where
bury_held now noted test error q = record q {
  rows = update_where test (bury now (λ _. some error)) q.rows;
  dead_letters = insert_select noted (letter_of now (λ _. some error)) q.rows q.dead_letters;
}

abbrev pub fail_row : ℕ → ℕ → ℕ → String → ℕ → ℕ → Queue → Option Row → Result (State × Queue)
fail_row now job_id token error base most q none =
    err lookup_error "job lease is missing, expired, or no longer owned"
fail_row now job_id token error base most q (some r) =
    if leb r.max_attempts r.attempts
    then (do
      raise_if (not (count (held_by job_id token) q.rows == 1)) lookup_error
          "job lease changed during dead-letter transition"
      ok (dead, bury_held now (has_token job_id token) (held_by job_id token) error q))
    else (do
      raise_if (not (count (held_by job_id token) q.rows == 1)) lookup_error
          "job lease changed during retry transition"
      ok (
        pending,
        record q {
          rows =
              update_where (held_by job_id token)
                (postpone now (backoff base most r.attempts) error) q.rows;
        },
      ))

unfoldable pub fail_job : ℕ → ℕ → ℕ → String → ℕ → ℕ → Queue → Result (State × Queue)
unfolding held_by has_token backoff bury_held safe_error
fail_job now job_id token error base most q = do
  raise_if (ltb base 1 || ltb most base) value_error "invalid backoff bounds"
  fail_row now job_id token (safe_error error "relay dispatch failed") base most q
      (find (held_by job_id token) q.rows)

unfoldable pub dead_letter_job : ℕ → ℕ → ℕ → String → Queue → Bool × Queue
unfolding held_by bury_held safe_error
dead_letter_job now job_id token error q = (
  count (held_by job_id token) q.rows == 1,
  bury_held now (held_by job_id token) (held_by job_id token) (safe_error error "invalid job") q,
)

-- WHERE id = %s AND job_kind = 'acceptance_canary' AND idempotency_key = %s AND state IN (…)
unfoldable pub is_live_canary : ℕ → String → Row → Bool
is_live_canary job_id canary_id r =
    r.id == job_id
    && str_eq r.job_kind "acceptance_canary"
    && str_eq r.idempotency_key (String.◌++◌ "acceptance-canary:" canary_id)
    && is_open r.state

abbrev pub cancel : ℕ → Row → Row
cancel now r = record r {
  state = dead;
  leased_by = none;
  lease_token = none;
  lease_expires_at = none;
  available_at = now;
  last_error = some "acceptance canary cancelled";
  updated_at = now;
}

unfoldable pub cancel_acceptance_canary : ℕ → ℕ → String → Queue → Bool × Queue
unfolding is_live_canary update_where
cancel_acceptance_canary now job_id canary_id q = (
  count (is_live_canary job_id canary_id) q.rows == 1,
  record q { rows = update_where (is_live_canary job_id canary_id) (cancel now) q.rows },
)

pub record QueueJobState : Type 0 where
  pub state : State
  pub attempts : ℕ
  pub max_attempts : ℕ
  pub dead_lettered : Bool

unfoldable pub get_queue_job_state : ℕ → Queue → Result QueueJobState
get_queue_job_state job_id q = elim (find (has_id job_id) q.rows) [
  | none ↦ err lookup_error "expected a database row"
  | some r ↦ ok (record {
    state = r.state;
    attempts = r.attempts;
    max_attempts = r.max_attempts;
    dead_lettered = any (λ d. d.queue_id == r.id) q.dead_letters;
  })
]
