-- ===== src/Tests/Samples.antt =====
-- A queue of the runtime as test data: a new database, two jobs of storage.py's `enqueue_job`, and
-- a claim of the first.
use shadowglass_v35_runtime.Common.{
  ℕ, String, ◌≡◌, refl, Bool, false, true, Option, none, some, [], ◌∷◌, arith,
}
use shadowglass_v35_runtime.Common.Int.{pos}
use shadowglass_v35_runtime.Common.Result.{ok}
use shadowglass_v35_runtime.Json.{int, str, Payload}
use shadowglass_v35_runtime.Queue.Row.{Row, Queue, QueueJob}
use shadowglass_v35_runtime.Queue.Recover.{Readings}
use shadowglass_v35_runtime.Queue.Claim.{lease, job_from_row, claim_statement, claim_job}
use shadowglass_v35_runtime.Queue.Enqueue.{Work, new_row, enqueue_job}
use shadowglass_v35_runtime.Queue.Invariant.Valid.{IsValid}
use shadowglass_v35_runtime.Queue.Invariant.Extends.{Keeps-refl}
use shadowglass_v35_runtime.Worker.Proc.{Turn}
use shadowglass_v35_runtime.Worker.Keeps.{IsFair}
use Prim.Native.Nat.{◌+◌}
use shadowglass_v35_runtime.Queue.Reach.{
  Step, enqueue, claim, Reach, here, next, Reach-Keeps, empty, empty-IsValid,
}

abbrev pub discover_payload : Payload
discover_payload =
    ("countyId", int (pos 5))
    ∷ ("instrumentTypeId", int (pos 8))
    ∷ ("operation", str "discover")
    ∷ []

abbrev pub discovery : Work
discovery = record {
  job_kind = "discover";
  payload = discover_payload;
  payload_version = 1;
  idempotency_key = "discover-5-8";
  priority = pos 100;
  max_attempts = 2;
}

abbrev pub scrape : Work
scrape = record {
  job_kind = "scrape";
  payload = discover_payload;
  payload_version = 1;
  idempotency_key = "scrape-5-8";
  priority = pos 90;
  max_attempts = 1;
}

abbrev pub first : Row
first = new_row 10 1 discovery

abbrev pub second_row : Row
second_row = new_row 20 2 scrape

abbrev pub one_job : Queue
one_job = record { rows = first ∷ []; next_id = 2; dead_letters = [] }

abbrev pub two_jobs : Queue
two_jobs = record { rows = first ∷ second_row ∷ []; next_id = 3; dead_letters = [] }

abbrev pub readings : Readings
readings = record { recorded = 30; buried = 31; requeued = 32 }

-- The scrape is claimed first, by its priority, under token 7 until 60 seconds after.
abbrev pub claimed : Row
claimed = lease 40 "w" 7 60 second_row

abbrev pub claimed_job : QueueJob
claimed_job = job_from_row 7 60000040 second_row

abbrev pub running : Queue
running = record { rows = first ∷ claimed ∷ []; next_id = 3; dead_letters = [] }

pub enqueued_first : enqueue_job 10 discovery empty ≡ ok ((1, true), one_job)
unfolding enqueue_job shadowglass_v35_runtime.Common.Text.strip
enqueued_first = refl

pub enqueued_second : enqueue_job 20 scrape one_job ≡ ok ((2, true), two_jobs)
unfolding enqueue_job shadowglass_v35_runtime.Common.Text.strip
enqueued_second = refl

pub claimed_second :
    claim_job (λ _. false) readings (λ q. q) 40 "w" 60 none 7 two_jobs
    ≡ ok (some claimed_job, running)
unfolding claim_job shadowglass_v35_runtime.Common.Text.strip
    shadowglass_v35_runtime.Queue.Table.before
claimed_second = refl

pub claimed_statement :
    claim_statement (λ _. false) 40 "w" 60 none 7 two_jobs ≡ (some claimed_job, running)
unfolding claim_statement shadowglass_v35_runtime.Queue.Table.before
claimed_statement = refl

pub two_jobs-Reach : Reach empty two_jobs
two_jobs-Reach =
    next (next here (enqueue 10 discovery (1, true) enqueued_first))
      (enqueue 20 scrape (2, true) enqueued_second)

pub claiming : Step two_jobs running
claiming =
    claim (λ _. false) readings 40 "w" 60 none 7 (some claimed_job) (omega arith) claimed_second

pub one_job-IsValid : IsValid one_job
one_job-IsValid =
    (Reach-Keeps empty one_job empty-IsValid
      (next here (enqueue 10 discovery (1, true) enqueued_first))).0

pub two_jobs-IsValid : IsValid two_jobs
two_jobs-IsValid = (Reach-Keeps empty two_jobs empty-IsValid two_jobs-Reach).0

pub running-IsValid : IsValid running
running-IsValid = (Reach-Keeps empty running empty-IsValid (next two_jobs-Reach claiming)).0

-- Turns with no other process.
abbrev pub turn_of : ℕ → Turn
turn_of n = record {
  others = λ db. db;
  between = λ q. q;
  now = 100 + n;
  acked = 100 + n;
  readings = readings;
  locked = λ _. false;
  token = 9;
}

pub fair : IsFair turn_of
fair = record {
  others_keep = λ n db. Keeps-refl db.queue;
  between_keep = λ n. Keeps-refl;
  in_order = λ n. omega arith;
}
