-- ===== src/Database/Progress.antt =====
-- storage.py: what `complete_scrape` says of its pair's progress.
use shadowglass_v35_runtime.Common.{
  ℕ, ◌+◌, ◌≡◌, refl, sym, ap, inl, inr, Bool, true, Option, none, some, List, [], ◌∷◌, find, any,
  ==_iff, arith, coalesce, Bool-cases, Option-cases, if◌then◌else◌,
}
use shadowglass_v35_runtime.Common.Int.{ℤ, negsuc}
use shadowglass_v35_runtime.Common.Result.{ok}
use shadowglass_v35_runtime.Queue.Row.{QueueJob}
use shadowglass_v35_runtime.Queue.Lease.{update_owned, acknowledge}
use shadowglass_v35_runtime.Database.Tables.{ScrapeJob, Db, upsert, is_pair}
use shadowglass_v35_runtime.Database.Context.{JobContext}
use shadowglass_v35_runtime.Database.Scrape.{
  PersistedPage, store_page, store_pages, record_count, last_page, max_ℤ, is_remaining, scraped,
  rescrape, complete_scrape,
}

-- What an upsert leaves under its key.
find-upsert :
    {A : Type 0} (p : A → Bool) (merge : A → A) (new : A) (xs : List A)
    → p new ≡ true
    → ((x : A) → p x ≡ true → p (merge x) ≡ true)
    → find p (upsert p merge new xs) ≡ some (elim (find p xs) [ none ↦ new | some x ↦ merge x ])
find-upsert p merge new [] h k = rw h refl
find-upsert p merge new (x ∷ xs) h k = elim (Bool-cases (p x)) [
  | inl hit ↦ let m = k x hit in rw (hit, m) refl
  | inr miss ↦ rw (miss, miss) (find-upsert p merge new xs h k)
]

store_pages-scrape_jobs :
    (now : ℕ) (c : JobContext) (pages : List PersistedPage) (db : Db)
    → (store_pages now c pages db).scrape_jobs ≡ db.scrape_jobs
unfolding store_pages
store_pages-scrape_jobs now c [] db = refl
store_pages-scrape_jobs now c (p ∷ ps) db = store_pages-scrape_jobs now c ps (store_page now c p db)

-- The records of the pair before.
abbrev pub scraped_before : Option ScrapeJob → ℕ
scraped_before none = 0
scraped_before (some j) = coalesce j.scraped_records 0

abbrev pub page_before : Option ScrapeJob → ℤ → ℤ
page_before none last = last
page_before (some j) last = max_ℤ (coalesce j.last_page (negsuc 0)) last

-- The pair's job after a scrape.
pub record Progress (job : QueueJob) (c : JobContext) (pages : List PersistedPage) (db db' : Db)
    : Type 0 where
  pub entry : ScrapeJob
  pub found : find (is_pair c.county_id c.instrument_type_id) db'.scrape_jobs ≡ some entry
  pub records :
      entry.scraped_records
      ≡ some (
          scraped_before (find (is_pair c.county_id c.instrument_type_id) db.scrape_jobs)
          + record_count pages)
  pub page :
      entry.last_page
      ≡ some (
          page_before
            (find (is_pair c.county_id c.instrument_type_id) db.scrape_jobs)
            (last_page pages))
  pub status :
      entry.status
      ≡ some (if any (is_remaining job.id c) db'.queue.rows then "running" else "completed")

-- A scrape that completes answers with the number of its records, adds them to those of the pair,
-- raises the pair's last page to the last of its own where that is higher, and marks the pair
-- "completed" exactly where no other open scrape of the pair is left in the queue, else "running".
pub complete_scrape-Progress :
    (now acked : ℕ) (job : QueueJob) (c : JobContext) (pages : List PersistedPage) (db : Db) (n : ℕ)
    (db' : Db)
    → complete_scrape now acked job c pages db ≡ ok (n, db')
    → (n ≡ record_count pages) × Progress job c pages db db'
unfolding complete_scrape
complete_scrape-Progress now acked job c pages db n db' e =
    let stored = store_pages now c pages db in
    let done = update_owned acked job.id job.lease_token (acknowledge acked) stored.queue in
    let owned : done.0 ≡ true = ground arith in
    let rows : done.1 ≡ db'.queue = ground arith in
    let remaining = any (is_remaining job.id c) done.1.rows in
    let p = is_pair c.county_id c.instrument_type_id in
    let new = scraped acked c remaining (record_count pages) (last_page pages) in
    let jobs : upsert p (rescrape (record_count pages) (last_page pages) new) new stored.scrape_jobs
        ≡ db'.scrape_jobs =
      ground arith in
    let new_hit : p new ≡ true = ground (
      arith,
      (==_iff c.county_id c.county_id),
      (==_iff c.instrument_type_id c.instrument_type_id),
    ) in
    let hit =
      find-upsert p (rescrape (record_count pages) (last_page pages) new) new stored.scrape_jobs
        new_hit (λ x h. new_hit) in
    let kept = store_pages-scrape_jobs now c pages db in
    let answer : n ≡ record_count pages = ground arith in
    elim (Option-cases (find p db.scrape_jobs)) [
      | inl gone ↦ (
        answer,
        record {
          entry = new;
          found = rw (sym jobs, hit, kept, gone) refl;
          records = rw gone (ap some (omega arith));
          page = rw gone refl;
          status = rw (sym rows) refl;
        },
      )
      | inr (x, there) ↦ (
        answer,
        record {
          entry = rescrape (record_count pages) (last_page pages) new x;
          found = rw (sym jobs, hit, kept, there) refl;
          records = rw there refl;
          page = rw there refl;
          status = rw (sym rows) refl;
        },
      )
    ]
