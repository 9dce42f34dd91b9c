-- ===== src/Scheduler.antt =====
-- scheduled_job.py: `run_hourly`, and the test of `main`'s probe. The transaction holds the
-- scheduler's advisory lock, so its statements are one step. `bucket` is the UTC hour of `instant`
-- as `strftime` writes it; the times are those of the queue.
pub mod Hourly
use Prim.Native.String
use shadowglass_v35_runtime.Common.{
  ℕ, ◌+◌, ◌-◌, ◌*◌, String, Bool, true, false, not, ◌&&◌, ◌||◌, Option, none, some, List, [], ◌∷◌,
  ◌++◌, map, any, find, leb, ltb, ◌==◌, coalesce, if◌then◌else◌,
}
use shadowglass_v35_runtime.Common.Int.{ℤ, pos, eq_ℤ}
use shadowglass_v35_runtime.Common.Text.{show}
use shadowglass_v35_runtime.Common.Result.{Result, ok, value_error, raise_if, ◌>>◌}
use shadowglass_v35_runtime.Queue.Row.{Row, Queue, is_open}
use shadowglass_v35_runtime.Queue.Table.{second}
use shadowglass_v35_runtime.Queue.Claim.{text_is}
use shadowglass_v35_runtime.Queue.Enqueue.{Work, insert_work}
use shadowglass_v35_runtime.Database.Tables.{County, Instrument, ScrapeJob, Db, is_pair}
use shadowglass_v35_runtime.Database.Discovery.{job_payload, rowcount}

pub record ScheduleResult : Type 0 where
  pub lock_acquired : Bool
  pub candidates : ℕ
  pub enqueued : ℕ
  pub existing : ℕ

-- COALESCE(is_active, 1) = 1
abbrev pub is_enabled : County → Bool
is_enabled c = eq_ℤ (coalesce c.is_active (pos 1)) (pos 1)

-- COALESCE(jobs.status, '') NOT IN ('running', 'pending', 'paused')
abbrev pub is_idle : Option String → Bool
is_idle status =
    not (text_is status "running" || text_is status "pending" || text_is status "paused")

abbrev pub day : ℕ
day = 86400 * second

-- jobs.completed_at IS NULL OR jobs.completed_at <= instant - interval '24 hours'
abbrev pub is_overdue : ℕ → Option ℕ → Bool
is_overdue instant none = true
is_overdue instant (some t) = leb (t + day) instant

-- A row of the join; `completed` is `jobs.completed_at`, NULL without a job.
pub record Pair : Type 0 where
  pub county : County
  pub instrument : Instrument
  pub status : Option String
  pub completed : Option ℕ

-- LEFT JOIN scrape_jobs: the pair's job is unique.
abbrev pub status_of : Option ScrapeJob → Option String
status_of none = none
status_of (some j) = j.status

abbrev pub completion_of : Option ScrapeJob → Option ℕ
completion_of none = none
completion_of (some j) = j.completed_at

abbrev pub pair_of : List ScrapeJob → County → Instrument → Pair
pair_of jobs c i =
    let job = find (is_pair c.id i.id) jobs in
    record { county = c; instrument = i; status = status_of job; completed = completion_of job }

-- CROSS JOIN
abbrev pub cross : List ScrapeJob → List County → List Instrument → List Pair
cross jobs [] is = []
cross jobs (c ∷ cs) is = map (pair_of jobs c) is ++ cross jobs cs is

unfoldable pub is_candidate : ℕ → Pair → Bool
is_candidate instant p = is_enabled p.county && is_idle p.status && is_overdue instant p.completed

-- ORDER BY completed_at NULLS FIRST, counties.id, instruments.id: `p` comes before `r`.
abbrev pub by_ids : Pair → Pair → Bool
by_ids p r =
    if ltb p.county.id r.county.id
    then true
    else p.county.id == r.county.id && ltb p.instrument.id r.instrument.id

abbrev pub completed_before : Option ℕ → Option ℕ → Bool → Bool
completed_before none none tie = tie
completed_before none (some t) tie = true
completed_before (some s) none tie = false
completed_before (some s) (some t) tie = if ltb s t then true else if s == t then tie else false

unfoldable pub comes_before : Pair → Pair → Bool
comes_before p r = completed_before p.completed r.completed (by_ids p r)

abbrev pub earlier : Pair → Option Pair → Option Pair
earlier p none = some p
earlier p (some r) = if comes_before r p then some r else some p

-- WHERE … ORDER BY … LIMIT 1
unfoldable pub candidate : ℕ → List Pair → Option Pair
unfolding is_candidate comes_before
candidate instant [] = none
candidate instant (p ∷ ps) =
    let rest = candidate instant ps in if is_candidate instant p then earlier p rest else rest

-- f"hourly:{bucket}:county:{county_id}:instrument:{instrument_id}"
unfoldable pub hourly_key : String → ℕ → ℕ → String
unfolding show
hourly_key bucket county_id instrument_id = String.◌++◌ "hourly:" (
    String.◌++◌ bucket (
      String.◌++◌ ":county:"
        (String.◌++◌ (show county_id) (String.◌++◌ ":instrument:" (show instrument_id)))))

abbrev pub hourly_work : String → ℕ → County → Instrument → Work
hourly_work bucket max_attempts c i = record {
  job_kind = "discover";
  payload = job_payload "discover" c.name c.id i.name i.id 0 0 (coalesce c.platform "");
  payload_version = 1;
  idempotency_key = hourly_key bucket c.id i.id;
  priority = pos 100;
  max_attempts = max_attempts;
}

-- SELECT EXISTS (… WHERE state IN ('pending', 'paused', 'processing'))
abbrev pub is_busy : Queue → Bool
is_busy q = any (λ r. is_open r.state) q.rows

abbrev pub nothing : Bool → ScheduleResult
nothing lock = record { lock_acquired = lock; candidates = 0; enqueued = 0; existing = 0 }

-- The end of the function, once a candidate is selected.
abbrev pub schedule : ℕ → String → ℕ → Bool → Db → Option Pair → ScheduleResult × Db
schedule now bucket max_attempts probe db none = (nothing true, db)
schedule now bucket max_attempts probe db (some p) =
    if probe
    then (record { lock_acquired = true; candidates = 1; enqueued = 0; existing = 0 }, db)
    else let (created, q) =
        insert_work now (hourly_work bucket max_attempts p.county p.instrument) db.queue in
      (
        record {
          lock_acquired = true;
          candidates = 1;
          enqueued = rowcount created;
          existing = 1 - rowcount created;
        },
        record db { queue = q },
      )

-- `acquired` is what `pg_try_advisory_xact_lock` answers; an instant is a number, so the test for a
-- time without a zone has no case.
unfoldable pub run_hourly : ℕ → ℕ → String → ℕ → Bool → Bool → Db → Result (ScheduleResult × Db)
unfolding candidate insert_work hourly_key
run_hourly now instant bucket max_attempts probe acquired db = do
  raise_if (not (leb 1 max_attempts && leb max_attempts 100)) value_error
      "max_attempts must be between 1 and 100"
  ok (
      if not acquired
      then (nothing false, db)
      else if is_busy db.queue
      then (nothing true, db)
      else schedule now bucket max_attempts probe db
          (candidate instant (cross db.scrape_jobs db.counties db.instruments)))
