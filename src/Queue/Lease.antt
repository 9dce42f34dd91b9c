-- ===== src/Queue/Lease.antt =====
-- storage.py: what the owner of a live lease does, `extend_lease`, `renew_lease`, `complete_job`
-- and the write fence `lease_write_fence`.
use shadowglass_v35_runtime.Common.{
  ℕ, ◌+◌, ◌*◌, String, Bool, true, false, not, ◌&&◌, ◌||◌, some, none, count, any, ltb, leb, ◌==◌,
  some_eq, some_gt,
}
use shadowglass_v35_runtime.Common.Text.{length, is_empty}
use shadowglass_v35_runtime.Common.Result.{
  Result, ok, value_error, lease_fence_rejected, raise_if, ◌>>◌,
}
use shadowglass_v35_runtime.Queue.Row.{Row, Queue, completed, is_processing}
use shadowglass_v35_runtime.Queue.Table.{second, update_where}

-- WHERE id = %s AND state = 'processing' AND lease_token = %s
unfoldable pub held_by : ℕ → ℕ → Row → Bool
held_by job_id token r = r.id == job_id && is_processing r.state && some_eq r.lease_token token

-- … AND lease_expires_at > clock_timestamp()
unfoldable pub owned_by : ℕ → ℕ → ℕ → Row → Bool
unfolding held_by
owned_by now job_id token r = held_by job_id token r && some_gt r.lease_expires_at now

-- SET lease_expires_at = clock_timestamp() + make_interval(secs => %s)
abbrev pub prolong : ℕ → ℕ → Row → Row
prolong now seconds r = record r {
  lease_expires_at = some (now + seconds * second);
  updated_at = now;
}

-- SET state = 'completed', completed_at = …, last_error = NULL
abbrev pub acknowledge : ℕ → Row → Row
acknowledge now r = record r {
  state = completed;
  completed_at = some now;
  updated_at = now;
  leased_by = none;
  lease_token = none;
  lease_expires_at = none;
  last_error = none;
}

-- One UPDATE of the caller's live lease, with `cursor.rowcount == 1`.
unfoldable pub update_owned : ℕ → ℕ → ℕ → (Row → Row) → Queue → Bool × Queue
unfolding owned_by update_where
update_owned now job_id token f q = (
  count (owned_by now job_id token) q.rows == 1,
  record q { rows = update_where (owned_by now job_id token) f q.rows },
)

unfoldable pub extend_lease : ℕ → ℕ → ℕ → ℕ → Queue → Result (Bool × Queue)
unfolding update_owned
extend_lease now job_id token seconds q = do
  raise_if (not (leb 30 seconds && leb seconds 3600)) value_error
      "lease_seconds must be between 30 and 3600"
  ok (update_owned now job_id token (prolong now seconds) q)

unfoldable pub renew_lease : ℕ → ℕ → ℕ → ℕ → Queue → Result (Bool × Queue)
unfolding update_owned
renew_lease now job_id token seconds q = do
  raise_if (not (leb 5 seconds && leb seconds 3600)) value_error
      "lease_seconds must be between 5 and 3600"
  ok (update_owned now job_id token (prolong now seconds) q)

unfoldable pub complete_job : ℕ → ℕ → ℕ → Queue → Bool × Queue
unfolding update_owned
complete_job now job_id token q = update_owned now job_id token (acknowledge now) q

-- The proof that one object key is fenced; `active` ends with the transaction.
pub record LeaseWriteFence : Type 0 where
  pub job_id : ℕ
  pub lease_token : ℕ
  pub object_key : String
  pub active : Bool

-- The body of the `with` up to its `yield`; the locks hold every other transaction on the row and
-- on the object key until `close_fence`.
unfoldable pub lease_write_fence : ℕ → ℕ → ℕ → String → Queue → Result LeaseWriteFence
unfolding owned_by
lease_write_fence now job_id token key q = do
  raise_if (ltb job_id 1 || is_empty key || ltb 1024 (length key)) value_error
      "invalid lease-fence identity"
  raise_if (not (any (owned_by now job_id token) q.rows)) lease_fence_rejected
      "object write lease is no longer live"
  ok (record { job_id = job_id; lease_token = token; object_key = key; active = true })

-- `proof._close()`
abbrev pub close_fence : LeaseWriteFence → LeaseWriteFence
close_fence fence = record fence { active = false }
