-- ===== src/Queue/Claim.antt =====
-- storage.py: `claim_job`, with `_job_from_row`.
use shadowglass_v35_runtime.Common.{
  ℕ, ◌+◌, ◌*◌, String, Bool, true, false, not, ◌&&◌, ◌||◌, Option, none, some, leb, ltb, ◌==◌,
  str_eq,
}
use shadowglass_v35_runtime.Common.Text.{is_empty, strip}
use shadowglass_v35_runtime.Common.Result.{Result, ok, value_error, raise_if, ◌>>◌}
use shadowglass_v35_runtime.Json.{text_at}
use shadowglass_v35_runtime.Queue.Row.{Row, Queue, QueueJob, processing, is_pending}
use shadowglass_v35_runtime.Queue.Table.{second, update_where, select_first}
use shadowglass_v35_runtime.Queue.Recover.{Readings, recover_stale_leases}

-- `text = %s`, never true of NULL
abbrev pub text_is : Option String → String → Bool
text_is none t = false
text_is (some s) t = str_eq s t

abbrev pub kind_allowed : Option String → Row → Bool
kind_allowed none r = true
kind_allowed (some kind) r = str_eq r.job_kind kind

-- The WHERE clause of the candidate.
unfoldable pub is_eligible : ℕ → String → Option String → Row → Bool
unfolding text_at
is_eligible now worker kind r =
    is_pending r.state
    && leb r.available_at now
    && ltb r.attempts r.max_attempts
    && (not (str_eq r.job_kind "acceptance_canary")
        || text_is (text_at "targetWorkerId" r.payload) worker)
    && kind_allowed kind r

-- FOR UPDATE SKIP LOCKED: a row that another transaction holds is passed over.
abbrev pub is_candidate : (ℕ → Bool) → ℕ → String → Option String → Row → Bool
is_candidate locked now worker kind r = is_eligible now worker kind r && not (locked r.id)

-- SET state = 'processing', attempts = queue.attempts + 1, …
abbrev pub lease : ℕ → String → ℕ → ℕ → Row → Row
lease now worker token seconds r = record r {
  state = processing;
  attempts = r.attempts + 1;
  leased_by = some worker;
  lease_token = some token;
  lease_expires_at = some (now + seconds * second);
  updated_at = now;
}

-- RETURNING, and `_job_from_row` of it.
abbrev pub job_from_row : ℕ → ℕ → Row → QueueJob
job_from_row token expires r = record {
  id = r.id;
  job_kind = r.job_kind;
  payload = r.payload;
  payload_version = r.payload_version;
  idempotency_key = r.idempotency_key;
  attempts = r.attempts + 1;
  max_attempts = r.max_attempts;
  lease_token = token;
  lease_expires_at = expires;
}

-- WHERE queue.id = candidate.id
abbrev pub has_id : ℕ → Row → Bool
has_id n r = r.id == n

abbrev pub take_candidate : ℕ → String → ℕ → ℕ → Queue → Option Row → Option QueueJob × Queue
take_candidate now worker token seconds q none = (none, q)
take_candidate now worker token seconds q (some r) = (
  some (job_from_row token (now + seconds * second) r),
  record q { rows = update_where (has_id r.id) (lease now worker token seconds) q.rows },
)

-- The claiming statement: the best candidate is leased under the fresh token.
unfoldable pub claim_statement :
    (ℕ → Bool) → ℕ → String → ℕ → Option String → ℕ → Queue → Option QueueJob × Queue
unfolding is_eligible select_first update_where
claim_statement locked now worker seconds kind token q =
    take_candidate now worker token seconds q
      (select_first (is_candidate locked now worker kind) q.rows)

abbrev pub kind_approved : Option String → Bool
kind_approved none = true
kind_approved (some kind) = str_eq kind "acceptance_canary"

-- `token` is the value of `uuid.uuid4()`. The recovery commits before the claiming statement runs;
-- `between` is what other transactions do to the queue in the meantime.
unfoldable pub claim_job :
    (ℕ → Bool)
    → Readings
    → (Queue → Queue)
    → ℕ
    → String
    → ℕ
    → Option String
    → ℕ
    → Queue
    → Result (Option QueueJob × Queue)
unfolding recover_stale_leases claim_statement
claim_job locked readings between now worker seconds kind token q = do
  raise_if (is_empty (strip worker)) value_error "worker_id must be non-empty"
  raise_if (not (leb 5 seconds && leb seconds 3600)) value_error
      "lease_seconds must be between 5 and 3600"
  raise_if (not (kind_approved kind)) value_error
      "claim_kind is not an approved isolated claim mode"
  ok (
      claim_statement locked now worker seconds kind token
        (between (recover_stale_leases readings q).1))
