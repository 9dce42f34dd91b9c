-- ===== src/Database/Scrape.antt =====
-- storage.py: `complete_scrape`. Its statements share one reading of the clock but for the
-- acknowledgement, which has its own.
use shadowglass_v35_runtime.Common.{
  ℕ, ◌+◌, String, Bool, false, not, ◌&&◌, Option, none, some, List, [], ◌∷◌, ◌++◌, any, length,
  ◌==◌, str_eq, coalesce, if◌then◌else◌,
}
use shadowglass_v35_runtime.Common.Int.{ℤ, pos, negsuc, ltb_ℤ}
use shadowglass_v35_runtime.Common.Text.{take, is_empty, show}
use shadowglass_v35_runtime.Common.Result.{Result, ok, lookup_error, raise_if, ◌>>◌}
use shadowglass_v35_runtime.Json.{text_at}
use shadowglass_v35_runtime.Queue.Row.{Row, QueueJob, is_open}
use shadowglass_v35_runtime.Queue.Lease.{update_owned, acknowledge}
use shadowglass_v35_runtime.Queue.Claim.{text_is}
use shadowglass_v35_runtime.Database.Tables.{ScrapeJob, Upload, Deed, Log, Db, upsert, is_pair}
use shadowglass_v35_runtime.Database.Context.{JobContext}

-- A record that an adapter scraped: a dict of texts.
abbrev pub Record : Type 0
Record = List (String × String)

-- `str(record.get(key) or "")`
abbrev pub text_of : String → Record → String
text_of key [] = ""
text_of key ((k, v) ∷ r) = if str_eq k key then v else text_of key r

pub record PersistedPage : Type 0 where
  pub page : ℕ
  pub records : List Record
  pub object_key : String
  pub sha256 : String
  pub etag : String

abbrev pub text_or_none : String → Option String
text_or_none s = if is_empty s then none else some s

abbrev pub upload_of : ℕ → JobContext → PersistedPage → Upload
upload_of now c p = record {
  r2_key = p.object_key;
  county_id = c.county_id;
  instrument_type_id = c.instrument_type_id;
  page_number = p.page;
  record_count = length p.records;
  uploaded_at = now;
}

abbrev pub reupload : Upload → Upload → Upload
reupload new old = record old { record_count = new.record_count; uploaded_at = new.uploaded_at }

abbrev pub deed_of : ℕ → JobContext → String → Record → Deed
deed_of now c object_key r = record {
  external_id = text_or_none (take 500 (text_of "id" r));
  county = c.county;
  instrument_type = c.instrument_type;
  instrument_type_id = c.instrument_type_id;
  grantor = take 2000 (text_of "grantor" r);
  grantee = take 2000 (text_of "grantee" r);
  recorded_date = take 100 (text_of "recordedDate" r);
  filing_date = take 100 (text_of "filingDate" r);
  legal_description = take 8000 (text_of "legalDescription" r);
  book = take 200 (text_of "bookPage" r);
  page_num = take 200 (text_of "bookPage" r);
  doc_number = text_or_none (take 500 (text_of "id" r));
  consideration = take 500 (text_of "consideration" r);
  source_url = take 4000 (text_of "pdfUrl" r);
  r2_key = object_key;
  created_at = now;
}

abbrev pub same_external : Option String → Option String → Bool
same_external (some a) (some b) = str_eq a b
same_external _ _ = false

-- ON CONFLICT (county, instrument_type, external_id) WHERE external_id IS NOT NULL
unfoldable pub same_deed : Deed → Deed → Bool
same_deed new old =
    str_eq old.county new.county
    && str_eq old.instrument_type new.instrument_type
    && same_external old.external_id new.external_id

-- DO UPDATE SET …: the identity, the instrument id and the creation stay.
abbrev pub redeed : Deed → Deed → Deed
redeed new old = record new {
  external_id = old.external_id;
  county = old.county;
  instrument_type = old.instrument_type;
  instrument_type_id = old.instrument_type_id;
  created_at = old.created_at;
}

abbrev pub store_deed : Deed → List Deed → List Deed
store_deed new deeds = upsert (same_deed new) (redeed new) new deeds

unfoldable pub store_deeds : ℕ → JobContext → String → List Record → List Deed → List Deed
unfolding same_deed
store_deeds now c key [] deeds = deeds
store_deeds now c key (r ∷ rs) deeds =
    store_deeds now c key rs (store_deed (deed_of now c key r) deeds)

-- INSERT … SELECT id, … FROM scrape_jobs: an entry for the pair's job, if there is one.
abbrev pub log_page : ℕ → JobContext → PersistedPage → Db → List Log
log_page now c p db =
    if any (is_pair c.county_id c.instrument_type_id) db.scrape_jobs
    then db.logs
      ++ record {
        county_id = c.county_id;
        instrument_type_id = c.instrument_type_id;
        object_sha256 = p.sha256;
        page = p.page;
        records = length p.records;
        created_at = now;
      }
        ∷ []
    else db.logs

-- The body of `for page in pages`.
abbrev pub store_page : ℕ → JobContext → PersistedPage → Db → Db
store_page now c p db = record db {
  uploads =
      upsert (λ u. str_eq u.r2_key p.object_key) (reupload (upload_of now c p)) (upload_of now c p)
        db.uploads;
  deeds = store_deeds now c p.object_key p.records db.deeds;
  logs = log_page now c p db;
}

unfoldable pub store_pages : ℕ → JobContext → List PersistedPage → Db → Db
unfolding store_deeds
store_pages now c [] db = db
store_pages now c (p ∷ ps) db = store_pages now c ps (store_page now c p db)

-- `record_count` after the loop
unfoldable pub record_count : List PersistedPage → ℕ
record_count [] = 0
record_count (p ∷ ps) = length p.records + record_count ps

abbrev pub max_ℤ : ℤ → ℤ → ℤ
max_ℤ a b = if ltb_ℤ a b then b else a

-- `max((int(page["page"]) for page in pages), default=-1)`: pages are not negative.
unfoldable pub last_page : List PersistedPage → ℤ
last_page [] = negsuc 0
last_page (p ∷ ps) = max_ℤ (pos p.page) (last_page ps)

-- The condition of SELECT EXISTS, after the acknowledgement.
unfoldable pub is_remaining : ℕ → JobContext → Row → Bool
unfolding text_at
is_remaining job_id c r =
    not (r.id == job_id)
    && str_eq r.job_kind "scrape"
    && is_open r.state
    && text_is (text_at "countyId" r.payload) (show c.county_id)
    && text_is (text_at "instrumentTypeId" r.payload) (show c.instrument_type_id)

abbrev pub scraped : ℕ → JobContext → Bool → ℕ → ℤ → ScrapeJob
scraped now c remaining n last = record {
  county_id = c.county_id;
  instrument_type_id = c.instrument_type_id;
  status = some (if remaining then "running" else "completed");
  total_records = some n;
  scraped_records = some n;
  last_page = some last;
  started_at = some now;
  completed_at = if remaining then none else some now;
  updated_at = some now;
}

-- DO UPDATE SET: the counts add up and the last page grows; `total_records` and `started_at` stay.
abbrev pub rescrape : ℕ → ℤ → ScrapeJob → ScrapeJob → ScrapeJob
rescrape n last new old = record new {
  total_records = old.total_records;
  scraped_records = some (coalesce old.scraped_records 0 + n);
  last_page = some (max_ℤ (coalesce old.last_page (negsuc 0)) last);
  started_at = old.started_at;
}

unfoldable pub complete_scrape :
    ℕ → ℕ → QueueJob → JobContext → List PersistedPage → Db → Result (ℕ × Db)
unfolding store_pages record_count last_page is_remaining update_owned
complete_scrape now acked job c pages db = do
  let stored = store_pages now c pages db
  let done = update_owned acked job.id job.lease_token (acknowledge acked) stored.queue
  raise_if (not done.0) lookup_error "scrape lease expired before atomic completion"
  let remaining = any (is_remaining job.id c) done.1.rows
  let new = scraped acked c remaining (record_count pages) (last_page pages)
  ok (
    record_count pages,
    record stored {
      queue = done.1;
      scrape_jobs =
          upsert (is_pair c.county_id c.instrument_type_id)
            (rescrape (record_count pages) (last_page pages) new) new stored.scrape_jobs;
    },
  )
