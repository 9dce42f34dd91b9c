-- ===== src/Database/Discovery.antt =====
-- storage.py: `complete_discovery`. Its statements share one reading of the clock but for the
-- acknowledgement, which has its own.
use Prim.Native.String
use shadowglass_v35_runtime.Common.{
  ℕ, zero, suc, ◌+◌, String, not, Option, none, some, [], ◌∷◌, ltb, ◌==◌, if◌then◌else◌,
}
use shadowglass_v35_runtime.Common.Int.{pos, negsuc}
use shadowglass_v35_runtime.Common.Text.{show}
use shadowglass_v35_runtime.Common.Result.{Result, ok, value_error, lookup_error, raise_if, ◌>>◌}
use shadowglass_v35_runtime.Json.{int, str, Payload}
use shadowglass_v35_runtime.Queue.Row.{Queue, QueueJob}
use shadowglass_v35_runtime.Queue.Lease.{update_owned, acknowledge}
use shadowglass_v35_runtime.Queue.Enqueue.{Work, insert_work}
use shadowglass_v35_runtime.Database.Tables.{ScrapeJob, Db, upsert, is_pair}
use shadowglass_v35_runtime.Database.Context.{JobContext}

-- The payload of a queued page range.
abbrev pub job_payload : String → String → ℕ → String → ℕ → ℕ → ℕ → String → Payload
job_payload kind county county_id instrument instrument_id start end platform =
    ("type", str kind)
    ∷ ("county", str county)
    ∷ ("countyId", int (pos county_id))
    ∷ ("instrumentType", str instrument)
    ∷ ("instrumentTypeId", int (pos instrument_id))
    ∷ ("startPage", int (pos start))
    ∷ ("endPage", int (pos end))
    ∷ ("platform", str platform)
    ∷ ("retry", int (pos 0))
    ∷ []

-- f"discovery:{job.id}:page:{page}"
unfoldable pub page_key : ℕ → ℕ → String
unfolding show
page_key job_id page =
    String.◌++◌ "discovery:" (String.◌++◌ (show job_id) (String.◌++◌ ":page:" (show page)))

abbrev pub page_work : ℕ → JobContext → ℕ → Work
page_work job_id c page = record {
  job_kind = "scrape";
  payload =
      job_payload "scrape" c.county c.county_id c.instrument_type c.instrument_type_id page page
        c.platform;
  payload_version = 1;
  idempotency_key = page_key job_id page;
  priority = pos 100;
  max_attempts = 5;
}

abbrev pub rowcount : Option ℕ → ℕ
rowcount none = 0
rowcount (some _) = 1

-- `for page in range(page_count)`: `left` pages from `page` on; the result counts the new rows.
unfoldable pub queue_pages : ℕ → ℕ → JobContext → ℕ → ℕ → Queue → ℕ × Queue
unfolding insert_work page_key
queue_pages now job_id c page zero q = (0, q)
queue_pages now job_id c page (suc left) q =
    let (created, q') = insert_work now (page_work job_id c page) q in
    let (queued, q'') = queue_pages now job_id c (page + 1) left q' in
    (rowcount created + queued, q'')

-- The upserted row; on conflict all but `started_at` is taken from it.
abbrev pub discovered : ℕ → JobContext → ℕ → ℕ → ScrapeJob
discovered now c total page_count = record {
  county_id = c.county_id;
  instrument_type_id = c.instrument_type_id;
  status = some (if page_count == 0 then "completed" else "pending");
  total_records = some total;
  scraped_records = some 0;
  last_page = some (negsuc 0);
  started_at = none;
  completed_at = if page_count == 0 then some now else none;
  updated_at = some now;
}

abbrev pub rediscover : ScrapeJob → ScrapeJob → ScrapeJob
rediscover new old = record new { started_at = old.started_at }

-- The counts are natural numbers, so the test for negative ones has no case.
unfoldable pub complete_discovery : ℕ → ℕ → QueueJob → JobContext → ℕ → ℕ → Db → Result (ℕ × Db)
unfolding queue_pages update_owned
complete_discovery now acked job c total page_count db = do
  raise_if (ltb 10000 page_count) value_error "discovery result is outside safe bounds"
  let new = discovered now c total page_count
  let pages = queue_pages now job.id c 0 page_count db.queue
  let done = update_owned acked job.id job.lease_token (acknowledge acked) pages.1
  raise_if (not done.0) lookup_error "discovery lease expired before atomic completion"
  ok (
    pages.0,
    record db {
      queue = done.1;
      scrape_jobs =
          upsert (is_pair c.county_id c.instrument_type_id) (rediscover new) new db.scrape_jobs;
    },
  )
