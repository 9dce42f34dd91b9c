-- ===== src/Queue/Recover.antt =====
-- storage.py: `recover_stale_leases`. Its three statements run in one transaction and each of them
-- reads the clock anew, so the model takes the three readings.
use shadowglass_v35_runtime.Common.{
  ℕ, String, Bool, ◌&&◌, Option, none, some, count, leb, ltb, some_le, coalesce,
}
use shadowglass_v35_runtime.Queue.Row.{Row, Queue, pending, dead, is_processing}
use shadowglass_v35_runtime.Queue.Table.{update_where, insert_select, letter_of}

pub record Readings : Type 0 where
  pub recorded : ℕ
  pub buried : ℕ
  pub requeued : ℕ

-- WHERE state = 'processing' AND lease_expires_at <= clock_timestamp() AND attempts >= max_attempts
unfoldable pub is_exhausted : ℕ → Row → Bool
is_exhausted now r =
    is_processing r.state && some_le r.lease_expires_at now && leb r.max_attempts r.attempts

-- … AND attempts < max_attempts
unfoldable pub is_stale : ℕ → Row → Bool
is_stale now r =
    is_processing r.state && some_le r.lease_expires_at now && ltb r.attempts r.max_attempts

-- COALESCE(last_error, 'lease expired')
abbrev pub expired_error : Row → Option String
expired_error r = some (coalesce r.last_error "lease expired")

abbrev pub bury : ℕ → (Row → Option String) → Row → Row
bury now error r = record r {
  state = dead;
  leased_by = none;
  lease_token = none;
  lease_expires_at = none;
  updated_at = now;
  last_error = error r;
}

abbrev pub requeue : ℕ → Row → Row
requeue now r = record r {
  state = pending;
  leased_by = none;
  lease_token = none;
  lease_expires_at = none;
  available_at = now;
  updated_at = now;
  last_error = expired_error r;
}

-- INSERT … SELECT
unfoldable pub record_exhausted : ℕ → Queue → Queue
unfolding insert_select is_exhausted
record_exhausted now q = record q {
  dead_letters =
      insert_select (is_exhausted now) (letter_of now expired_error) q.rows q.dead_letters;
}

-- the first UPDATE
unfoldable pub bury_exhausted : ℕ → Queue → Queue
unfolding update_where is_exhausted
bury_exhausted now q = record q {
  rows = update_where (is_exhausted now) (bury now expired_error) q.rows;
}

-- the second UPDATE
unfoldable pub requeue_stale : ℕ → Queue → Queue
unfolding update_where is_stale
requeue_stale now q = record q { rows = update_where (is_stale now) (requeue now) q.rows }

-- The result is `(requeued, dead)`.
unfoldable pub recover_stale_leases : Readings → Queue → (ℕ × ℕ) × Queue
unfolding record_exhausted bury_exhausted requeue_stale
recover_stale_leases t q =
    let noted = record_exhausted t.recorded q in
    let dead = count (is_exhausted t.buried) noted.rows in
    let after = bury_exhausted t.buried noted in
    let requeued = count (is_stale t.requeued) after.rows in
    ((requeued, dead), requeue_stale t.requeued after)
