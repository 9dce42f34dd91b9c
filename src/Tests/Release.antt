-- ===== src/Tests/Release.antt =====
-- Tests of consumer_canary.py: a run whose consumer is queue_worker.py's `process_once`, on the
-- bucket in memory.
use shadowglass_v35_runtime.Common.{
  ℕ, ◌+◌, ◌*◌, ◌≤◌, ◌≡◌, ◌⊎◌, refl, String, Bool, true, false, Option, none, some, List, [], ◌∷◌,
  ◌==◌, Bool-cases, inl, inr, arith, if◌then◌else◌,
}
use shadowglass_v35_runtime.Common.Utf8.{encode}
use shadowglass_v35_runtime.Common.Result.{ok}
use shadowglass_v35_runtime.ObjectStore.Identity.{canary_body}
use shadowglass_v35_runtime.Queue.Row.{Queue}
use shadowglass_v35_runtime.Queue.Enqueue.{new_row}
use shadowglass_v35_runtime.Queue.Invariant.Valid.{IsValid}
use shadowglass_v35_runtime.Queue.Invariant.Extends.{Keeps-refl}
use shadowglass_v35_runtime.Database.Tables.{Db}
use shadowglass_v35_runtime.Worker.Proc.{Turn, World}
use shadowglass_v35_runtime.Worker.Process.{process_once}
use shadowglass_v35_runtime.Worker.Keeps.{IsFair}
use shadowglass_v35_runtime.Worker.Keeps.Once.{process_once-Keeps}
use shadowglass_v35_runtime.Canary.{
  Release, CanaryResult, canary_job, watch, rounds, run_acceptance_canary,
}
use shadowglass_v35_runtime.Canary.Polling.{IsClock, watch_enough}
use shadowglass_v35_runtime.Canary.Closed.{IsOver}
use shadowglass_v35_runtime.Canary.Finished.{IsRefused, run_acceptance_canary-IsOver}
use shadowglass_v35_runtime.Canary.Cleaned.{IsAccepted, run_acceptance_canary-IsAccepted}
use shadowglass_v35_runtime.Tests.Samples.{turn_of, fair}
use shadowglass_v35_runtime.Tests.Bucket.{
  Objects, content, memory, memory-IsLawful, sha256, env, world,
}

abbrev empty_queue : Queue
empty_queue = record { rows = []; next_id = 1; dead_letters = [] }

empty_queue-IsValid : IsValid empty_queue
empty_queue-IsValid = record {
  sound = tt;
  ids = tt;
  keys = tt;
  below = tt;
  letters = tt;
  once = tt;
}

-- The consumer's run on these tables.
abbrev consumed : Db → World Objects
consumed db = (process_once env none (record { db = db; objects = []; turn = 0 })).1

-- The consumer runs before the third turn.
abbrev is_served : ℕ → Bool
is_served n = n == 2

abbrev turns : ℕ → Turn
turns n = record (turn_of n) { others = λ db. if is_served n then (consumed db).db else db }

turns-IsFair : IsFair turns
turns-IsFair = record {
  others_keep = λ n db. elim (Bool-cases (is_served n)) [
    | inl served ↦
        rw served (process_once-Keeps env fair none (record { db = db; objects = []; turn = 0 }))
    | inr other ↦ rw other (Keeps-refl db.queue)
  ];
  between_keep = λ n. Keeps-refl;
  in_order = λ n. omega arith;
}

abbrev identity : String
identity = "0123456789abcdef0123456789abcdef"

abbrev start : World Objects
start = record { db = record world.db { queue = empty_queue }; objects = []; turn = 0 }

-- The queue with the canary's job, as the consumer finds it.
abbrev queued : Queue
queued = record {
  rows = new_row 100 1 (canary_job " w " identity) ∷ [];
  next_id = 2;
  dead_letters = [];
}

-- The bucket after the consumer's run.
abbrev stored : Objects
stored = (consumed (record world.db { queue = queued })).objects

abbrev release : Release Objects
release = record {
  turns = turns;
  visits = λ n s. if is_served n then stored else s;
  client = memory;
  sha256 = sha256;
  target_worker_id = " w ";
  timeout = 1_000_000;
  poll = 10_000;
  monotonic = λ n. 500 + n * 10_000;
}

abbrev accepted : CanaryResult
accepted = record {
  job_id = 1;
  canary_id = identity;
  attempts = 1;
  object_sha256 = sha256 (encode (canary_body identity));
  cleaned_up = true;
}

answered : (run_acceptance_canary release (some identity) "" start).0 ≡ ok accepted
unfolding run_acceptance_canary process_once canary_body shadowglass_v35_runtime.Common.Text.strip
    shadowglass_v35_runtime.Queue.Fail.get_queue_job_state
    shadowglass_v35_runtime.Queue.Claim.claim_job
    shadowglass_v35_runtime.Worker.Payload.validate_payload
    shadowglass_v35_runtime.ObjectStore.Writes.put_canary encode
    shadowglass_v35_runtime.Queue.Lease.complete_job
answered = refl

run_acceptance_canary-IsAccepted_example :
    IsAccepted release content identity accepted
      (run_acceptance_canary release (some identity) "" start).1
run_acceptance_canary-IsAccepted_example =
    run_acceptance_canary-IsAccepted release content memory-IsLawful turns-IsFair (some identity) ""
      start accepted empty_queue-IsValid answered

run_acceptance_canary-IsOver_example :
    IsRefused release start (run_acceptance_canary release (some identity) "" start)
    ⊎ IsOver identity (run_acceptance_canary release (some identity) "" start).1.db.queue
run_acceptance_canary-IsOver_example =
    run_acceptance_canary-IsOver release turns-IsFair (some identity) "" start empty_queue-IsValid

release-IsClock : IsClock release
release-IsClock = record { forward = omega arith; pauses = λ k. omega arith }

watch_enough_example :
    watch release 1 (release.monotonic 0 + release.timeout) (rounds release + 7) 1 start
    ≡ watch release 1 (release.monotonic 0 + release.timeout) (rounds release) 1 start
watch_enough_example = watch_enough release release-IsClock (omega arith) 1 7 start
