-- ===== src/Service/Accepted.antt =====
-- What service.py, storage.py's `complete_discovery` and scheduled_job.py enqueue, as
-- queue_worker.py's `validate_payload` and storage.py's `load_job_context` read it.
use shadowglass_v35_runtime.Common.{
  ℕ, ◌-◌, ◌≤◌, String, ◌≡◌, refl, Bool, true, false, ◌&&◌, none, some, find, All, Option-cases, inl,
  inr, arith, ltb, leb, coalesce, str_eq,
}
use shadowglass_v35_runtime.Common.Int.{ℤ}
use shadowglass_v35_runtime.Common.Text.{length, is_empty, strip}
use shadowglass_v35_runtime.Common.Result.{ok, err, lookup_error}
use shadowglass_v35_runtime.Common.Distinct.{Distinct}
use shadowglass_v35_runtime.Common.Sorted.{
  Has, All-Has, find-Has, find-key, find-Has-none, least, least-Has,
}
use shadowglass_v35_runtime.Json.Dict.{str_eq_refl}
use shadowglass_v35_runtime.Queue.Enqueue.{Work}
use shadowglass_v35_runtime.Database.Tables.{County, Instrument, Db}
use shadowglass_v35_runtime.Database.Context.{
  JobContext, is_not_zero, is_county, is_instrument, load_job_context,
}
use shadowglass_v35_runtime.Database.Discovery.{job_payload, page_work}
use shadowglass_v35_runtime.Service.Jobs.{
  scrape_work, discover_work, resolve_county, resolve_instrument,
}
use shadowglass_v35_runtime.Worker.Payload.{Task, task, one_of, allowed_job_kinds, validate_payload}

-- A name of the directory: trimmed, not empty, and within the consumer's bound.
pub record IsName (s : String) : Type 0 where
  pub trimmed : strip s ≡ s
  pub full : is_empty s ≡ false
  pub short : length s ≤ 200

abbrev pub task_of : String → String → ℕ → String → ℕ → ℕ → ℕ → String → Task
task_of kind county county_id instrument instrument_id start end platform = record {
  kind = kind;
  county = county;
  county_id = county_id;
  instrument_type = instrument;
  instrument_type_id = instrument_id;
  start_page = start;
  end_page = end;
  platform = strip platform;
  retry = 0;
}

module _ (county instrument platform : String) (cid iid start end : ℕ) (c : IsName county)
    (i : IsName instrument) (bounded : length platform ≤ 64) (cpos : 1 ≤ cid) (ipos : 1 ≤ iid)
    (ordered : start ≤ end) (narrow : end - start ≤ 999) where
  pub payload-valid :
      (kind : String)
      → one_of allowed_job_kinds kind ≡ true
      → str_eq kind "acceptance_canary" ≡ false
      → validate_payload kind 1 (job_payload kind county cid instrument iid start end platform)
        ≡ ok (task (task_of kind county cid instrument iid start end platform))
  unfolding validate_payload
  payload-valid kind k1 k2 =
      let f1 = c.full in
      let f2 = i.full in
      let c1 : leb (length county) 200 ≡ true = ground (arith, c.short) in
      let c2 : leb (length instrument) 200 ≡ true = ground (arith, i.short) in
      let c3 : leb (length platform) 64 ≡ true = ground (arith, bounded) in
      let c4 : ltb cid 1 ≡ false = ground (arith, cpos) in
      let c5 : ltb iid 1 ≡ false = ground (arith, ipos) in
      let c6 : ltb end start ≡ false = ground (arith, ordered) in
      let c7 : ltb 999 (end - start) ≡ false = ground (arith, narrow) in
      rw (k1, k2, c.trimmed, i.trimmed, f1, f2, c1, c2, c3, c4, c5, c6, c7)
        (rw (c.trimmed, i.trimmed) refl)

-- The counties and the instrument types are under unique positive ids, with names and platforms
-- within the consumer's bounds.
pub record IsDirectory (db : Db) : Type 0 where
  pub county_ids : Distinct (λ c. c.id) db.counties
  pub instrument_ids : Distinct (λ i. i.id) db.instruments
  pub counties :
      All (λ c. (1 ≤ c.id) × IsName c.name × (length (coalesce c.platform "") ≤ 64)) db.counties
  pub instruments : All (λ i. (1 ≤ i.id) × IsName i.name) db.instruments

abbrev pub context_of : County → Instrument → JobContext
context_of c i = record {
  county_id = c.id;
  county = c.name;
  base_url = c.base_url;
  platform = coalesce c.platform "";
  instrument_type_id = i.id;
  instrument_type = i.name;
}

-- The consumer accepts some work and finds its county and instrument type, with these pages.
pub record IsReadable (casefold : String → String) (db : Db) (w : Work) (c : County)
    (i : Instrument) (start end : ℕ) : Type 0 where
  pub fields : Task
  pub valid : validate_payload w.job_kind w.payload_version w.payload ≡ ok (task fields)
  pub loaded : load_job_context casefold fields db ≡ ok (context_of c i)
  pub from : fields.start_page ≡ start
  pub to : fields.end_page ≡ end

module _ (casefold : String → String) (db : Db) (dir : IsDirectory db) (c : County) (i : Instrument)
    (hc : Has c db.counties) (hi : Has i db.instruments) where
  -- Any work with such a payload is readable while the county is active.
  pub payload-IsReadable :
      (w : Work) (kind : String) (start end : ℕ)
      → w.job_kind ≡ kind
      → w.payload_version ≡ 1
      → w.payload ≡ job_payload kind c.name c.id i.name i.id start end (coalesce c.platform "")
      → one_of allowed_job_kinds kind ≡ true
      → str_eq kind "acceptance_canary" ≡ false
      → is_not_zero c.is_active ≡ true
      → start ≤ end
      → end - start ≤ 999
      → IsReadable casefold db w c i start end
  unfolding load_job_context
  payload-IsReadable w kind start end ek ev ep k1 k2 active ordered narrow =
      let (cpos, cname, cplat) = All-Has _ db.counties c dir.counties hc in
      let (ipos, iname) = All-Has _ db.instruments i dir.instruments hi in
      let fc : find (is_county c.id) db.counties ≡ some c =
        find-Has (λ y. y.id) (λ y. is_not_zero y.is_active) db.counties c dir.county_ids hc
          active in
      let fi : find (is_instrument i.id) db.instruments ≡ some i =
        find-key (λ y. y.id) db.instruments i dir.instrument_ids hi in
      let s1 = str_eq_refl (casefold c.name) in
      let s2 = str_eq_refl (casefold i.name) in
      let p1 : ltb c.id 1 ≡ false = ground (arith, cpos) in
      let p2 : ltb i.id 1 ≡ false = ground (arith, ipos) in
      record {
        fields = task_of kind c.name c.id i.name i.id start end (coalesce c.platform "");
        valid =
            rw (ek, ev, ep)
              (payload-valid c.name i.name (coalesce c.platform "") c.id i.id start end cname iname
                cplat cpos ipos ordered narrow kind k1 k2);
        loaded = rw (p1, p2, fc, fi, s1, s2) refl;
        from = refl;
        to = refl;
      }

  -- … and not found while its `is_active` is NULL.
  pub inactive-refused :
      (kind : String) (start end : ℕ)
      → c.is_active ≡ none
      → load_job_context casefold
          (task_of kind c.name c.id i.name i.id start end (coalesce c.platform ""))
          db
        ≡ err lookup_error "queue context does not identify an active county/instrument"
  unfolding load_job_context
  inactive-refused kind start end null =
      let (cpos, cname, cplat) = All-Has _ db.counties c dir.counties hc in
      let (ipos, iname) = All-Has _ db.instruments i dir.instruments hi in
      let inactive : is_not_zero c.is_active ≡ false = rw null refl in
      let fc : find (is_county c.id) db.counties ≡ none =
        find-Has-none (λ y. y.id) (λ y. is_not_zero y.is_active) db.counties c dir.county_ids hc
          inactive in
      let p1 : ltb c.id 1 ≡ false = ground (arith, cpos) in
      let p2 : ltb i.id 1 ≡ false = ground (arith, ipos) in rw (p1, p2, fc) refl

county-Has :
    (ilike : String → String → Bool) (county : String) (db : Db) (c : County)
    → resolve_county ilike county db ≡ ok c
    → Has c db.counties × (is_not_zero c.is_active ≡ true)
county-Has ilike county db c e =
    elim (Option-cases
      (least (λ c. c.id) (λ c. ilike c.name county && is_not_zero c.is_active) db.counties)) [
        | inl none_left ↦ absurd (let h = rw (resolve_county, none_left) at e in cc)
        | inr (r, found) ↦
            let same : r ≡ c = ground (arith, rw (resolve_county, found) at e) in
            let (h, t) = least-Has (λ c. c.id) _ db.counties r found in
            let active : is_not_zero r.is_active ≡ true = ground (arith, t) in
            (rw same at h, rw same at active)
      ]

instrument-Has :
    (ilike : String → String → Bool) (instrument : String) (db : Db) (i : Instrument)
    → resolve_instrument ilike instrument db ≡ ok i
    → Has i db.instruments
instrument-Has ilike instrument db i e =
    elim (Option-cases (least (λ i. i.id) (λ i. ilike i.name instrument) db.instruments)) [
      | inl none_left ↦ absurd (let h = rw (resolve_instrument, none_left) at e in cc)
      | inr (r, found) ↦
          let same : r ≡ i = ground (arith, rw (resolve_instrument, found) at e) in
          let (h, t) = least-Has (λ i. i.id) _ db.instruments r found in rw same at h
    ]

-- In a directory, the county and the instrument type that the service resolves names to are
-- readable from the jobs that it makes of them, for page ranges of at most 1000 pages; the pages
-- that such a discovery queues are readable too.
pub resolved-IsReadable :
    (ilike : String → String → Bool) (casefold : String → String) (county instrument key : String)
    (priority : ℤ) (db : Db) (c : County) (i : Instrument) (start end job_id page : ℕ)
    → IsDirectory db
    → resolve_county ilike county db ≡ ok c
    → resolve_instrument ilike instrument db ≡ ok i
    → start ≤ end
    → end - start ≤ 999
    → IsReadable casefold db (scrape_work c i start end key priority) c i start end
      × IsReadable casefold db (discover_work c i key priority) c i 0 0
      × IsReadable casefold db (page_work job_id (context_of c i) page) c i page page
resolved-IsReadable ilike casefold county instrument key priority db c i start end job_id page dir
      ec ei ordered narrow =
    let (hc, active) = county-Has ilike county db c ec in
    let hi = instrument-Has ilike instrument db i ei in
    (
      payload-IsReadable casefold db dir c i hc hi _ "scrape" start end refl refl refl refl refl
          active ordered narrow,
      payload-IsReadable casefold db dir c i hc hi _ "discover" 0 0 refl refl refl refl refl active
          (omega arith) (omega arith),
      payload-IsReadable casefold db dir c i hc hi _ "scrape" page page refl refl refl refl refl
          active (omega arith) (omega arith),
    )
