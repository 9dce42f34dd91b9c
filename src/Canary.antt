-- ===== src/Canary.antt =====
-- consumer_canary.py: `run_acceptance_canary`. Before each of its steps the other processes, the
-- candidate consumer among them, may change the tables and the bucket. Times are microseconds;
-- `monotonic k` is what the k-th call of the clock answers, and a pause shows only there.
pub mod Keeps
pub mod Closed
pub mod Watched
pub mod Finished
pub mod Accepted
pub mod Cleaned
pub mod Polling
use Prim.Native.String
use shadowglass_v35_runtime.Common.{
  ℕ, zero, suc, ◌+◌, ◌/◌, String, Bool, true, false, not, ◌&&◌, ◌||◌, Option, none, some, [], ◌∷◌,
  leb, ltb, ◌==◌, if◌then◌else◌,
}
use shadowglass_v35_runtime.Common.Int.{negsuc}
use shadowglass_v35_runtime.Common.Text
use shadowglass_v35_runtime.Common.Text.{is_empty, strip, or_text}
use shadowglass_v35_runtime.Common.Result.{Result, ok, err, value_error, canary_error, raise_if}
use shadowglass_v35_runtime.Json.{str}
use shadowglass_v35_runtime.Queue.Row.{State, pending, processing, completed, dead}
use shadowglass_v35_runtime.Queue.Enqueue.{Work, enqueue_job}
use shadowglass_v35_runtime.Queue.Fail.{
  QueueJobState, get_queue_job_state, cancel_acceptance_canary,
}
use shadowglass_v35_runtime.Database.Tables.{Db}
use shadowglass_v35_runtime.Worker.Proc.{
  Turn, World, Proc, ◌>>=◌, ◌>>◌, pure, lift, yielded, transact, on_queue, query, StoredPage,
}
use shadowglass_v35_runtime.ObjectStore.Identity.{canary_key}
use shadowglass_v35_runtime.ObjectStore.Client.{Bytes, MinioLike}
use shadowglass_v35_runtime.ObjectStore.Canary.{verify_canary, remove_canary}

pub record CanaryResult : Type 0 where
  pub job_id : ℕ
  pub canary_id : String
  pub attempts : ℕ
  pub object_sha256 : String
  pub cleaned_up : Bool

-- The arguments, and what the other processes do to the bucket before each turn.
pub record Release (S : Type 0) : Type 0 where
  pub turns : ℕ → Turn
  pub visits : ℕ → S → S
  pub client : MinioLike S
  pub sha256 : Bytes → String
  pub target_worker_id : String
  pub timeout : ℕ
  pub poll : ℕ
  pub monotonic : ℕ → ℕ

-- The job that it enqueues.
abbrev pub canary_job : String → String → Work
canary_job target identity = record {
  job_kind = "acceptance_canary";
  payload = ("canaryId", str identity) ∷ ("targetWorkerId", str (strip target)) ∷ [];
  payload_version = 1;
  idempotency_key = String.◌++◌ "acceptance-canary:" identity;
  priority = negsuc 999;
  max_attempts = 1;
}

abbrev pub is_completed : State → Bool
is_completed completed = true
is_completed _ = false

module _ {S : Type 0} (release : Release S) where
  open release use {turns, visits, client, sha256, target_worker_id, timeout, poll, monotonic}

  abbrev pub visited : World S → World S
  visited w = record w { objects = visits w.turn w.objects }

  -- A transaction, and a call of the object store.
  unfoldable pub on_tables : {A : Type 0} → (Turn → Db → Result (A × Db)) → Proc S A
  on_tables body w = transact turns body (visited w)

  unfoldable pub on_bucket : {A : Type 0} → (S → Result A × S) → Proc S A
  on_bucket call w =
      let w' = yielded turns (visited w) in
      let (r, s) = call w'.objects in (r, record w' { objects = s })

  -- What the loop does with a state: the job is over, or it goes on.
  abbrev pub seen :
      State → QueueJobState → Proc S (Option QueueJobState) → Proc S (Option QueueJobState)
  seen completed state rest = pure (some state)
  seen dead state rest = pure (some state)
  seen pending state rest = rest
  seen processing state rest = rest
  seen State.paused state rest = lift (err canary_error "canary entered an unexpected queue state")

  abbrev pub observe : ℕ → Proc S QueueJobState
  observe job_id = on_tables (λ _ db. query (get_queue_job_state job_id db.queue) db)

  -- The loop from the k-th reading of the clock on; it ends without an answer at the deadline.
  unfoldable pub watch : ℕ → ℕ → ℕ → ℕ → Proc S (Option QueueJobState)
  unfolding on_tables transact
  watch job_id deadline zero k = pure none
  watch job_id deadline (suc left) k =
      let rest = watch job_id deadline left (k + 1) in
      if ltb (monotonic k) deadline
      then (do state ← observe job_id; seen state.state state rest)
      else pure none

  -- Rounds enough, one for each pause before the deadline and one more.
  abbrev pub rounds : ℕ
  rounds = timeout / poll + 1

  -- The tests on the state in which the job ended, and on its object.
  abbrev pub require_done : QueueJobState → Result (Unit {0})
  require_done terminal =
      raise_if (not (is_completed terminal.state) || terminal.dead_lettered) canary_error
        "candidate consumer dead-lettered the acceptance canary"

  abbrev pub require_single : QueueJobState → Result (Unit {0})
  require_single terminal =
      raise_if (not (terminal.attempts == 1) || not (terminal.max_attempts == 1)) canary_error
        "acceptance canary retried or was not single-attempt"

  abbrev pub verify : String → Proc S StoredPage
  verify identity = on_bucket (λ s. (verify_canary client sha256 identity s, s))

  abbrev pub result_of : ℕ → String → QueueJobState → StoredPage → CanaryResult
  result_of job_id identity terminal stored = record {
    job_id = job_id;
    canary_id = identity;
    attempts = terminal.attempts;
    object_sha256 = stored.sha256;
    cleaned_up = true;
  }

  abbrev pub judge : ℕ → String → QueueJobState → Proc S CanaryResult
  judge job_id identity terminal = do
    lift (require_done terminal)
    lift (require_single terminal)
    stored ← verify identity
    pure (result_of job_id identity terminal stored)

  -- The object is removed; a failure of that is raised only after a completed job.
  abbrev pub answered :
      Bool → Result CanaryResult → Result (Unit {0}) × World S → Result CanaryResult × World S
  answered should_cleanup r (ok _, w) = (r, w)
  answered should_cleanup r (err e m, w) = if should_cleanup then (err e m, w) else (r, w)

  abbrev pub removing :
      Bool → String → Result CanaryResult × World S → Result CanaryResult × World S
  removing should_cleanup identity (r, w) =
      answered should_cleanup r (on_bucket (remove_canary client identity) w)

  -- The transaction that cancels the canary's job.
  abbrev pub cancelling : ℕ → String → World S → World S
  cancelling job_id identity w =
      (on_tables (λ t. on_queue (λ q. ok (cancel_acceptance_canary t.now job_id identity q))) w).1

  -- `finally`, by `should_cleanup`.
  abbrev pub cleanup :
      Bool → ℕ → String → Result CanaryResult × World S → Result CanaryResult × World S
  cleanup true job_id identity x = removing true identity x
  cleanup false job_id identity (r, w) = removing false identity (r, cancelling job_id identity w)

  abbrev pub timed_out : Result CanaryResult
  timed_out = err canary_error "candidate consumer did not complete the canary before timeout"

  -- The body of `try` after the loop, and `finally`.
  abbrev pub concluded :
      ℕ → String → Result (Option QueueJobState) × World S → Result CanaryResult × World S
  concluded job_id identity (err e m, w) = cleanup false job_id identity (err e m, w)
  concluded job_id identity (ok none, w) = cleanup false job_id identity (timed_out, w)
  concluded job_id identity (ok (some terminal), w) =
      cleanup (is_completed terminal.state) job_id identity (judge job_id identity terminal w)

  -- The run from the enqueued job on.
  unfoldable pub supervise : String → ℕ → Proc S CanaryResult
  unfolding watch on_bucket verify_canary remove_canary cancel_acceptance_canary
  supervise identity job_id w =
      concluded job_id identity (watch job_id (monotonic 0 + timeout) rounds 1 w)

  abbrev pub require_target : Result (Unit {0})
  require_target =
      raise_if (is_empty (strip target_worker_id) || ltb 128 (Text.length target_worker_id))
        value_error "target_worker_id must be a non-empty bounded identifier"

  abbrev pub require_timeout : Result (Unit {0})
  require_timeout =
      raise_if (not (leb 1_000_000 timeout && leb timeout 600_000_000)) value_error
        "timeout_seconds must be between 1 and 600"

  abbrev pub require_poll : Result (Unit {0})
  require_poll =
      raise_if (not (leb 10_000 poll && leb poll 5_000_000)) value_error
        "poll_seconds must be between 0.01 and 5"

  abbrev pub enqueue_canary : String → Proc S (ℕ × Bool)
  enqueue_canary identity =
      on_tables (λ t. on_queue (enqueue_job t.now (canary_job target_worker_id identity)))

  abbrev pub run_checked : String → Proc S CanaryResult
  run_checked identity = do
    lift require_target
    lift require_timeout
    lift require_poll
    lift (canary_key identity)
    (job_id, _) ← enqueue_canary identity
    supervise identity job_id

  -- `fresh` is `uuid.uuid4().hex`.
  abbrev pub identity_of : Option String → String → String
  identity_of none fresh = fresh
  identity_of (some id) fresh = or_text id fresh

  unfoldable pub run_acceptance_canary : Option String → String → Proc S CanaryResult
  unfolding supervise enqueue_job canary_key
  run_acceptance_canary canary_id fresh = run_checked (identity_of canary_id fresh)
