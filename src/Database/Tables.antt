-- ===== src/Database/Tables.antt =====
-- The tables of schema.sql beside the queue, with the columns that the runtime reads or writes.
-- A time that a statement stores as text is the number that it stands for.
use shadowglass_v35_runtime.Common.{
  ℕ, String, Bool, ◌&&◌, Option, List, [], ◌∷◌, ◌==◌, if◌then◌else◌,
}
use shadowglass_v35_runtime.Common.Int.{ℤ}
use shadowglass_v35_runtime.Queue.Row.{Queue}

pub record County : Type 0 where
  pub id : ℕ
  pub name : String
  pub base_url : String
  pub platform : Option String
  pub is_active : Option ℤ

pub record Instrument : Type 0 where
  pub id : ℕ
  pub name : String

pub record ScrapeJob : Type 0 where
  pub county_id : ℕ
  pub instrument_type_id : ℕ
  pub status : Option String
  pub total_records : Option ℕ
  pub scraped_records : Option ℕ
  pub last_page : Option ℤ
  pub started_at : Option ℕ
  pub completed_at : Option ℕ
  pub updated_at : Option ℕ

pub record Upload : Type 0 where
  pub r2_key : String
  pub county_id : ℕ
  pub instrument_type_id : ℕ
  pub page_number : ℕ
  pub record_count : ℕ
  pub uploaded_at : ℕ

pub record Deed : Type 0 where
  pub external_id : Option String
  pub county : String
  pub instrument_type : String
  pub instrument_type_id : ℕ
  pub grantor : String
  pub grantee : String
  pub recorded_date : String
  pub filing_date : String
  pub legal_description : String
  pub book : String
  pub page_num : String
  pub doc_number : Option String
  pub consideration : String
  pub source_url : String
  pub r2_key : String
  pub created_at : ℕ

-- A log entry of a persisted page; `county_id` and `instrument_type_id` are those of its job.
pub record Log : Type 0 where
  pub county_id : ℕ
  pub instrument_type_id : ℕ
  pub object_sha256 : String
  pub page : ℕ
  pub records : ℕ
  pub created_at : ℕ

pub record Db : Type 0 where
  pub queue : Queue
  pub counties : List County
  pub instruments : List Instrument
  pub scrape_jobs : List ScrapeJob
  pub uploads : List Upload
  pub deeds : List Deed
  pub logs : List Log

-- INSERT … ON CONFLICT … DO UPDATE: the first row that conflicts takes `merge new old`, or the new
-- row is added.
abbrev pub upsert {ℓ} : {A : Type ℓ} → (A → Bool) → (A → A) → A → List A → List A
upsert conflicts merge new [] = new ∷ []
upsert conflicts merge new (x ∷ xs) =
    if conflicts x then merge x ∷ xs else x ∷ upsert conflicts merge new xs

-- The row of one county and instrument.
abbrev pub is_pair : ℕ → ℕ → ScrapeJob → Bool
is_pair county_id instrument_id j =
    j.county_id == county_id && j.instrument_type_id == instrument_id
