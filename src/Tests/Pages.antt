-- ===== src/Tests/Pages.antt =====
-- Tests of storage.py: `complete_scrape` on two pages of a pair that was scraped before.
use shadowglass_v35_runtime.Common.{
  ◌≡◌, refl, ℕ, ◌+◌, length, zero, suc, arith, false, none, some, List, [], ◌∷◌, map,
}
use shadowglass_v35_runtime.Common.Int.{pos}
use shadowglass_v35_runtime.Common.Result.{ok}
use shadowglass_v35_runtime.Queue.Row.{Queue}
use shadowglass_v35_runtime.Queue.Lease.{acknowledge}
use shadowglass_v35_runtime.Database.Tables.{ScrapeJob, Db}
use shadowglass_v35_runtime.Database.Context.{JobContext}
use shadowglass_v35_runtime.Queue.Enqueue.{has_key, new_row}
use shadowglass_v35_runtime.Database.Discovery.{
  page_key, page_work, discovered, rediscover, complete_discovery,
}
use shadowglass_v35_runtime.Database.Queued.{AreAbsent, AreQueued, complete_discovery-AreQueued}
use shadowglass_v35_runtime.Database.Scrape.{
  Record, PersistedPage, scraped, rescrape, store_deeds, store_pages, record_count, complete_scrape,
}
use shadowglass_v35_runtime.Database.Progress.{Progress, complete_scrape-Progress}
use shadowglass_v35_runtime.Database.Repeat.{identity, store_deeds_repeated}
use shadowglass_v35_runtime.Tests.Samples.{first, claimed, claimed_job, running, running-IsValid}

abbrev pub context : JobContext
context = record {
  county_id = 5;
  county = "Harris";
  base_url = "https://example.org";
  platform = "publicsearch";
  instrument_type_id = 8;
  instrument_type = "Deed";
}

abbrev deed_record : Record
deed_record = ("id", "2024-1") ∷ ("grantor", "Smith") ∷ ("grantee", "Jones") ∷ []

abbrev pages : List PersistedPage
pages =
    record { page = 3; records = deed_record ∷ []; object_key = "p3"; sha256 = "a"; etag = "e" }
    ∷ record { page = 4; records = deed_record ∷ []; object_key = "p4"; sha256 = "b"; etag = "e" }
    ∷ []

abbrev earlier : ScrapeJob
earlier = record {
  county_id = 5;
  instrument_type_id = 8;
  status = some "running";
  total_records = some 40;
  scraped_records = some 7;
  last_page = some (pos 2);
  started_at = some 1;
  completed_at = none;
  updated_at = some 2;
}

abbrev before : Db
before = record {
  queue = running;
  counties = [];
  instruments = [];
  scrape_jobs = earlier ∷ [];
  uploads = [];
  deeds = [];
  logs = [];
}

abbrev finished : Queue
finished = record running { rows = first ∷ acknowledge 101 claimed ∷ [] }

abbrev after : Db
after = record (store_pages 100 context pages before) {
  queue = finished;
  scrape_jobs = rescrape 2 (pos 4) (scraped 101 context false 2 (pos 4)) earlier ∷ [];
}

scrape_answered : complete_scrape 100 101 claimed_job context pages before ≡ ok (2, after)
unfolding complete_scrape
scrape_answered = refl

complete_scrape-Progress_example :
    (2 ≡ record_count pages) × Progress claimed_job context pages before after
complete_scrape-Progress_example =
    complete_scrape-Progress 100 101 claimed_job context pages before 2 after scrape_answered

abbrev other_record : Record
other_record = ("id", "2024-2") ∷ []

store_deeds_repeated_example :
    map identity (
      store_deeds 30 context "c" (deed_record ∷ []) (
        store_deeds 20 context "b"
          (other_record ∷ [])
          (store_deeds 10 context "a" (deed_record ∷ []) [])))
    ≡ map identity (
        store_deeds 20 context "b"
          (other_record ∷ [])
          (store_deeds 10 context "a" (deed_record ∷ []) []))
store_deeds_repeated_example =
    store_deeds_repeated 10 20 30 context context "a" "b" "c" (deed_record ∷ []) (other_record ∷ [])
      [] refl

-- A discovery of two pages.
abbrev discovered_queue : Queue
discovered_queue = record {
  rows =
      first
      ∷ acknowledge 101 claimed
      ∷ new_row 100 3 (page_work 2 context 0)
      ∷ new_row 100 4 (page_work 2 context 1)
      ∷ [];
  next_id = 5;
  dead_letters = [];
}

abbrev after_discovery : Db
after_discovery = record before {
  queue = discovered_queue;
  scrape_jobs = rediscover (discovered 100 context 70 2) earlier ∷ [];
}

pages_discovered :
    complete_discovery 100 101 claimed_job context 70 2 before ≡ ok (2, after_discovery)
unfolding complete_discovery page_key
pages_discovered = refl

pages_absent : AreAbsent 2 context 0 2 running
unfolding page_key has_key
pages_absent zero lo hi = refl
pages_absent (suc zero) lo hi = refl
pages_absent (suc (suc p)) lo hi = absurd (omega arith)

complete_discovery-AreQueued_example :
    (◌≡◌ {A = ℕ} 2 2)
    × (length discovered_queue.rows ≡ length running.rows + 2)
    × AreQueued 2 context 0 2 discovered_queue.rows
complete_discovery-AreQueued_example =
    complete_discovery-AreQueued 100 101 claimed_job context 70 2 before after_discovery 2
      running-IsValid pages_absent pages_discovered
