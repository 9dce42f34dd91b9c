-- ===== src/Tests/Lost.antt =====
-- A test of queue_worker.py: a discovery whose lease runs out before its first heartbeat, so that a
-- recovery makes it pending again.
use shadowglass_v35_runtime.Common.{
  ℕ, ◌+◌, ◌*◌, ◌≡◌, refl, String, Bool, true, false, Option, none, some, [], ◌∷◌, leb, inl, arith,
  if◌then◌else◌,
}
use shadowglass_v35_runtime.Common.Result.{ok, err, lookup_error}
use shadowglass_v35_runtime.Queue.Row.{QueueJob}
use shadowglass_v35_runtime.Queue.Table.{second}
use shadowglass_v35_runtime.Queue.Claim.{job_from_row}
use shadowglass_v35_runtime.Queue.Enqueue.{insert_work}
use shadowglass_v35_runtime.Queue.Invariant.Valid.{IsValid}
use shadowglass_v35_runtime.Queue.Invariant.Insertions.{insert_work-Keeps}
use shadowglass_v35_runtime.Queue.Reach.{empty, empty-IsValid}
use shadowglass_v35_runtime.Database.Context.{JobContext}
use shadowglass_v35_runtime.Worker.Payload.{Task}
use shadowglass_v35_runtime.Worker.Proc.{Turn, Env, World, done, yielded}
use shadowglass_v35_runtime.Worker.Process.{context_job, prepare, process_once}
use shadowglass_v35_runtime.Worker.Outcome.Finished.{claim_turn}
use shadowglass_v35_runtime.Worker.Outcome.Lost.{HasLost, process_once-lost}
use shadowglass_v35_runtime.Scheduler.{hourly_work}
use shadowglass_v35_runtime.Tests.Samples.{turn_of}
use shadowglass_v35_runtime.Tests.Runs.{env}
use shadowglass_v35_runtime.Tests.Directory.{harris, lien, hour_row, scheduled}

-- From the heartbeat's turn on the job is pending again.
abbrev turns : ℕ → Turn
turns n = record (turn_of n) {
  others = λ db. if leb 2 n then record db { queue = scheduled.queue } else db;
}

abbrev losing : Env ℕ
losing = record env { turns = turns }

abbrev start : World ℕ
start = record { db = scheduled; objects = 0; turn = 0 }

abbrev job : QueueJob
job = job_from_row 9 (100 + 300 * second) hour_row

abbrev claimed : World ℕ
claimed = (claim_turn losing none start).1

abbrev context : JobContext
context = record {
  county_id = 5;
  county = "Harris";
  base_url = "https://example.org";
  platform = "";
  instrument_type_id = 7;
  instrument_type = "Lien";
}

abbrev a_task : Task
a_task = record {
  kind = "discover";
  county = "Harris";
  county_id = 5;
  instrument_type = "Lien";
  instrument_type_id = 7;
  start_page = 0;
  end_page = 0;
  platform = "";
  retry = 0;
}

abbrev ready : World ℕ
ready = (prepare losing job claimed).1

taken : claim_turn losing none start ≡ (ok (some job), claimed)
unfolding shadowglass_v35_runtime.Worker.Proc.transact shadowglass_v35_runtime.Queue.Claim.claim_job
    shadowglass_v35_runtime.Common.Text.strip
taken = refl

prepared : prepare losing job claimed ≡ (ok (context_job a_task context), ready)
unfolding shadowglass_v35_runtime.Worker.Proc.transact shadowglass_v35_runtime.Queue.Claim.claim_job
    shadowglass_v35_runtime.Worker.Payload.validate_payload
    shadowglass_v35_runtime.Database.Context.load_job_context
    shadowglass_v35_runtime.Common.Text.strip
prepared = refl

pending_again : IsValid scheduled.queue
unfolding insert_work
pending_again =
    (insert_work-Keeps 50 (hourly_work "2026010112" 5 harris lien) empty (omega arith, omega arith)
      empty-IsValid).0

lost :
    (n : ℕ)
    → HasLost {O = ℕ} job
        (record { db = record scheduled { queue = scheduled.queue }; objects = 0; turn = n })
lost n = record {
  valid = pending_again;
  row = hour_row;
  listed = inl refl;
  named = refl;
  gone = inl (λ e. ground (arith, e));
}

process_once-lost_example : process_once losing none start ≡ (
  err lookup_error "job lease is missing, expired, or no longer owned",
  yielded turns (yielded turns ready),
)
unfolding shadowglass_v35_runtime.Worker.Proc.transact shadowglass_v35_runtime.Queue.Claim.claim_job
    shadowglass_v35_runtime.Worker.Payload.validate_payload
    shadowglass_v35_runtime.Database.Context.load_job_context
    shadowglass_v35_runtime.Common.Text.strip
process_once-lost_example =
    process_once-lost losing none start claimed ready job a_task context
      (done (ok (record { total_records = 0; page_count = 0 }))) taken prepared refl refl
      (omega arith) (omega arith) (omega arith) (lost 3) (lost 4)
