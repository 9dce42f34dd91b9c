-- ===== src/Tests/Directory.antt =====
-- Tests of service.py and scheduled_job.py on one county and two instrument types.
use shadowglass_v35_runtime.Common.{
  ℕ, suc, ◌≤◌, String, ◌≡◌, ◌≢◌, refl, inl, inr, Bool, true, false, Option, none, some, [], ◌∷◌,
  ◌++◌, map, length, arith, All, str_eq,
}
use shadowglass_v35_runtime.Common.Int.{pos}
use shadowglass_v35_runtime.Common.Result.{ok, err, lookup_error}
use shadowglass_v35_runtime.Queue.Row.{Row}
use shadowglass_v35_runtime.Queue.Enqueue.{new_row}
use shadowglass_v35_runtime.Queue.Reach.{empty, empty-IsValid}
use shadowglass_v35_runtime.Queue.Invariant.Extends.{Keeps-refl}
use shadowglass_v35_runtime.Database.Tables.{County, Instrument, Db}
use shadowglass_v35_runtime.Database.Context.{load_job_context}
use shadowglass_v35_runtime.Database.Discovery.{page_work}
use shadowglass_v35_runtime.Worker.Payload.{Task, task, validate_payload}
use shadowglass_v35_runtime.Worker.Proc.{World}
use shadowglass_v35_runtime.Service.Jobs.{Service, scrape_work, discover_work, enqueue_county}
use shadowglass_v35_runtime.Service.Accepted.{
  IsDirectory, IsReadable, context_of, resolved-IsReadable,
}
use shadowglass_v35_runtime.Service.Retry.{after}
use shadowglass_v35_runtime.Service.Retry.CountyJobs.{IsStable, enqueue_county-again}
use shadowglass_v35_runtime.Scheduler.{ScheduleResult, nothing, hourly_work, run_hourly}
use shadowglass_v35_runtime.Scheduler.Hourly.{
  IsScheduled, run_hourly-IsScheduled, scheduled-IsReadable,
}
use Prim.Native.Nat.{◌*◌}
use shadowglass_v35_runtime.Requests.{validate_idempotency_key}
use shadowglass_v35_runtime.App.Routes.{previewed, queued, Headers, dry_run, scrape_multi}
use shadowglass_v35_runtime.App.Routes.Preview.{scrape_multi-previewed}
use shadowglass_v35_runtime.Tests.Samples.{turn_of, fair}

abbrev pub harris : County
harris = record {
  id = 5;
  name = "Harris";
  base_url = "https://example.org";
  platform = none;
  is_active = some (pos 1);
}

abbrev deed : Instrument
deed = record { id = 8; name = "Deed" }

abbrev pub lien : Instrument
lien = record { id = 7; name = "Lien" }

abbrev pub directory : Db
directory = record {
  queue = empty;
  counties = harris ∷ [];
  instruments = deed ∷ lien ∷ [];
  scrape_jobs = [];
  uploads = [];
  deeds = [];
  logs = [];
}

directory-IsDirectory : IsDirectory directory
unfolding shadowglass_v35_runtime.Common.Text.strip
directory-IsDirectory = record {
  county_ids = (tt, tt);
  instrument_ids = (((λ e. omega (arith, e)), tt), (tt, tt));
  counties =
      ((omega arith, record { trimmed = refl; full = refl; short = omega arith }, omega arith), tt);
  instruments = (
    (omega arith, record { trimmed = refl; full = refl; short = omega arith }),
    ((omega arith, record { trimmed = refl; full = refl; short = omega arith }), tt),
  );
}

resolved-IsReadable_example :
    IsReadable
      (λ s. s)
      directory
      (scrape_work harris deed 3 9 "a-retry-key" (pos 100))
      harris
      deed
      3
      9
    × IsReadable
        (λ s. s)
        directory
        (discover_work harris deed "a-retry-key" (pos 100))
        harris
        deed
        0
        0
    × IsReadable (λ s. s) directory (page_work 4 (context_of harris deed) 6) harris deed 6 6
resolved-IsReadable_example =
    resolved-IsReadable str_eq (λ s. s) "Harris" "Deed" "a-retry-key" (pos 100) directory harris
      deed 3 9 4 6 directory-IsDirectory refl refl (omega arith) (omega arith)

abbrev api : Service
api = record { turns = turn_of; ilike = str_eq; credential = true }

abbrev start : World (Unit {0})
start = record { db = directory; objects = tt; turn = 0 }

stable : IsStable turn_of
stable = record { counties = λ n db. refl; instruments = λ n db. refl }

abbrev ended : World (Unit {0})
ended = (enqueue_county api "Harris" "a-retry-key" (pos 100) start).1

county_enqueued :
    (enqueue_county api "Harris" "a-retry-key" (pos 100) start).0 ≡ ok ((1, true) ∷ (2, true) ∷ [])
unfolding enqueue_county shadowglass_v35_runtime.Queue.Enqueue.enqueue_job
    shadowglass_v35_runtime.Common.Text.strip
county_enqueued = refl

unchanged :
    (ended.db.counties ≡ directory.counties) × (ended.db.instruments ≡ directory.instruments)
unfolding enqueue_county shadowglass_v35_runtime.Queue.Enqueue.enqueue_job
    shadowglass_v35_runtime.Common.Text.strip
unchanged = (refl, refl)

enqueue_county-again_example :
    enqueue_county api "Harris" "a-retry-key" (pos 100) ended
    ≡ (ok ((1, false) ∷ (2, false) ∷ []), after turn_of (suc (suc 2)) ended)
enqueue_county-again_example =
    enqueue_county-again api fair stable "Harris" "a-retry-key" (pos 100) start ended
      {jobs = (1, true) ∷ (2, true) ∷ []} empty-IsValid county_enqueued (Keeps-refl ended.db.queue)
      unchanged.0 unchanged.1

abbrev hour_result : ScheduleResult
hour_result = record { lock_acquired = true; candidates = 1; enqueued = 1; existing = 0 }

abbrev pub hour_row : Row
hour_row = new_row 50 1 (hourly_work "2026010112" 5 harris lien)

abbrev pub scheduled : Db
scheduled = record directory {
  queue = record { rows = hour_row ∷ []; next_id = 2; dead_letters = [] };
}

hour_run : run_hourly 50 60 "2026010112" 5 false true directory ≡ ok (hour_result, scheduled)
unfolding run_hourly
hour_run = refl

run_hourly-IsScheduled_example :
    IsScheduled 50 60 "2026010112" 5 directory scheduled
    × ((later then_ : ℕ) (hour : String) (probe : Bool)
        → run_hourly later then_ hour 5 probe true scheduled ≡ ok (nothing true, scheduled))
run_hourly-IsScheduled_example =
    run_hourly-IsScheduled 50 60 "2026010112" 5 directory hour_result scheduled hour_run refl

abbrev a_schedule : IsScheduled 50 60 "2026010112" 5 directory scheduled
a_schedule = record {
  county = harris;
  instrument = lien;
  county_listed = inl refl;
  instrument_listed = inr (inl refl);
  enabled = inr refl;
  due = inl refl;
  was_idle = refl;
  added = refl;
  is_now_busy = refl;
}

scheduled-IsReadable_example :
    (harris.is_active ≡ some (pos 1)
      → IsReadable (λ s. s) directory (hourly_work "2026010112" 5 harris lien) harris lien 0 0)
    × (harris.is_active ≡ none
        → (t : Task) × (validate_payload "discover" 1
              (hourly_work "2026010112" 5 harris lien).payload
            ≡ ok (task t))
          × (load_job_context (λ s. s) t directory
              ≡ err lookup_error "queue context does not identify an active county/instrument"))
scheduled-IsReadable_example =
    scheduled-IsReadable (λ s. s) 50 60 "2026010112" 5 directory scheduled directory-IsDirectory
      a_schedule

abbrev calling : Headers
calling = record { idempotency_key = some "retry-key-1"; smoke_token = ""; expected = "smoke" }

abbrev previewing : Headers
previewing = record {
  idempotency_key = some "retry-key-2";
  smoke_token = "smoke";
  expected = "smoke";
}

headers :
    (validate_idempotency_key calling.idempotency_key ≡ ok "retry-key-1")
    × (validate_idempotency_key previewing.idempotency_key ≡ ok "retry-key-2")
    × (dry_run calling ≡ ok false)
    × (dry_run previewing ≡ ok true)
unfolding validate_idempotency_key dry_run shadowglass_v35_runtime.Common.Text.strip
headers = (refl, refl, refl, refl)

multi_queued : (scrape_multi api calling ("Harris" ∷ []) start).0 ≡ ok (queued 2 2)
unfolding scrape_multi shadowglass_v35_runtime.Queue.Enqueue.enqueue_job
    shadowglass_v35_runtime.Common.Text.strip validate_idempotency_key
multi_queued = refl

scrape_multi-previewed_example :
    (2 ≡ 1 * 2) × ((scrape_multi api previewing ("Harris" ∷ []) start).0 ≡ ok (previewed 2))
scrape_multi-previewed_example =
    scrape_multi-previewed api fair stable calling previewing ("Harris" ∷ []) start "retry-key-1"
      "retry-key-2" 2 2 refl headers.0 headers.1 headers.2 headers.3 multi_queued
