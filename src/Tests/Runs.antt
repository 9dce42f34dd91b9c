-- ===== src/Tests/Runs.antt =====
-- Tests of queue_worker.py: runs of `process_once` on one canary job, with a scraper that has
-- nothing to scrape and an object store that counts its writes.
use shadowglass_v35_runtime.Common.{
  ℕ, ◌≤◌, String, ◌≡◌, ◌≢◌, refl, inl, inr, Bool, true, false, Option, none, some, [], ◌∷◌, arith,
}
use Prim.Native.Nat.{◌+◌}
use shadowglass_v35_runtime.Common.Int.{pos}
use shadowglass_v35_runtime.Common.Result.{ok}
use shadowglass_v35_runtime.Json.{str}
use shadowglass_v35_runtime.Queue.Row.{Queue, QueueJob}
use shadowglass_v35_runtime.Queue.Claim.{job_from_row}
use shadowglass_v35_runtime.Queue.Enqueue.{Work, new_row}
use shadowglass_v35_runtime.Queue.Lease.{LeaseWriteFence}
use shadowglass_v35_runtime.Queue.Invariant.Extends.{Keeps}
use shadowglass_v35_runtime.Worker.Payload.{Task}
use shadowglass_v35_runtime.Worker.Proc.{done, beat, ScraperLike, StoredPage, StoreLike, World, Env}
use shadowglass_v35_runtime.Worker.Process.{completed, process_once}
use shadowglass_v35_runtime.Worker.Keeps.Once.{process_once-Keeps}
use shadowglass_v35_runtime.Worker.Outcome.{JobDone}
use shadowglass_v35_runtime.Worker.Outcome.Finished.{claim_turn, process_once-JobDone}
use shadowglass_v35_runtime.Tests.Samples.{turn_of, fair}

abbrev pub no_scraper : ScraperLike
no_scraper = record {
  discover = λ _. beat (done (ok (record { total_records = 0; page_count = 0 })));
  scrape = λ _ _ _. done (ok []);
}

abbrev a_page : StoredPage
a_page = record { key = "k"; sha256 = "s"; etag = "e"; size = 1 }

abbrev counting : StoreLike ℕ
counting = record {
  canary_key = λ _. ok "k";
  page_key = λ _ _. ok "k";
  put_page = λ _ _ _ n. (ok a_page, n + 1);
  put_canary = λ _ _ n. (ok a_page, n + 1);
}

abbrev pub env : Env ℕ
env = record {
  turns = turn_of;
  casefold = λ s. s;
  scraper = no_scraper;
  store = counting;
  worker = "w";
  seconds = 300;
}

abbrev pub canary_work : Work
canary_work = record {
  job_kind = "acceptance_canary";
  payload = ("canaryId", str "0123456789abcdef0123456789abcdef") ∷ ("targetWorkerId", str "w") ∷ [];
  payload_version = 1;
  idempotency_key = "acceptance-canary:0123456789abcdef0123456789abcdef";
  priority = pos 0;
  max_attempts = 1;
}

abbrev world_of : Queue → World ℕ
world_of q = record {
  db = record {
    queue = q;
    counties = [];
    instruments = [];
    scrape_jobs = [];
    uploads = [];
    deeds = [];
    logs = [];
  };
  objects = 0;
  turn = 0;
}

abbrev pub canary_queue : Queue
canary_queue = record { rows = new_row 10 1 canary_work ∷ []; next_id = 2; dead_letters = [] }

process_once-Keeps_example :
    Keeps canary_queue (process_once env none (world_of canary_queue)).1.db.queue
process_once-Keeps_example = process_once-Keeps env fair none (world_of canary_queue)

canary_completed : (process_once env none (world_of canary_queue)).0 ≡ ok completed
unfolding process_once shadowglass_v35_runtime.Queue.Claim.claim_job
    shadowglass_v35_runtime.Common.Text.strip
    shadowglass_v35_runtime.Worker.Payload.validate_payload
    shadowglass_v35_runtime.Queue.Lease.complete_job
canary_completed = refl

process_once-JobDone_example :
    (job : QueueJob) × ((claim_turn env none (world_of canary_queue)).0 ≡ ok (some job))
    × JobDone job.id (process_once env none (world_of canary_queue)).1.db.queue
process_once-JobDone_example =
    process_once-JobDone env none (world_of canary_queue) canary_completed
