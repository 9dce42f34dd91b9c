-- ===== src/Service/Jobs.antt =====
-- service.py: `connection`, `_resolve_county`, `_resolve_instrument`, `instrument_type_count`,
-- `enqueue_scrape`, `enqueue_county`, `enqueue_discovery` and `set_paused`. Each statement is a turn
-- of its own, and each job commits before the next, so what was queued before a raise stays.
use Prim.Native.String
use shadowglass_v35_runtime.Common.{
  ℕ, String, Bool, ◌&&◌, none, some, List, [], ◌∷◌, length, if◌then◌else◌, coalesce,
}
use shadowglass_v35_runtime.Common.Int.{ℤ, pos}
use shadowglass_v35_runtime.Common.Sorted.{least, sort_by}
use shadowglass_v35_runtime.Common.Text.{show}
use shadowglass_v35_runtime.Common.Result.{Result, ok, err, not_found, service_unavailable}
use shadowglass_v35_runtime.Queue.Row.{State}
use shadowglass_v35_runtime.Queue.Enqueue.{Work, enqueue_job}
use shadowglass_v35_runtime.Queue.Enqueue
use shadowglass_v35_runtime.Database.Tables.{County, Instrument, Db}
use shadowglass_v35_runtime.Database.Context.{is_not_zero}
use shadowglass_v35_runtime.Database.Discovery.{job_payload}
use shadowglass_v35_runtime.Worker.Proc.{
  Turn, Proc, ◌>>=◌, ◌>>◌, pure, lift, transact, on_queue, query,
}

-- The work of one page range of one county and instrument.
abbrev pub scrape_work : County → Instrument → ℕ → ℕ → String → ℤ → Work
scrape_work c i start end key priority = record {
  job_kind = "scrape";
  payload = job_payload "scrape" c.name c.id i.name i.id start end (coalesce c.platform "");
  payload_version = 1;
  idempotency_key = key;
  priority = priority;
  max_attempts = 5;
}

-- f"{idempotency_key}:{instrument['id']}"
unfoldable pub instrument_key : String → ℕ → String
unfolding show
instrument_key key id = String.◌++◌ key (String.◌++◌ ":" (show id))

abbrev pub discover_work : County → Instrument → String → ℤ → Work
discover_work c i key priority = record {
  job_kind = "discover";
  payload = job_payload "discover" c.name c.id i.name i.id 0 0 (coalesce c.platform "");
  payload_version = 1;
  idempotency_key = key;
  priority = priority;
  max_attempts = 5;
}

-- `ilike name text` is PostgreSQL's `name ILIKE text`.
module _ (ilike : String → String → Bool) where
  abbrev pub resolve_county : String → Db → Result County
  resolve_county county db =
      elim (least (λ c. c.id) (λ c. ilike c.name county && is_not_zero c.is_active) db.counties) [
        | none ↦ err not_found "active county not found"
        | some c ↦ ok c
      ]

  abbrev pub resolve_instrument : String → Db → Result Instrument
  resolve_instrument instrument db =
      elim (least (λ i. i.id) (λ i. ilike i.name instrument) db.instruments) [
        | none ↦ err not_found "instrument type not found"
        | some i ↦ ok i
      ]

-- The service: its turns, ILIKE, and whether the database credential is there.
pub record Service : Type 0 where
  pub turns : ℕ → Turn
  pub ilike : String → String → Bool
  pub credential : Bool

module _ {O : Type 0} (s : Service) where
  -- `self.connection()`
  abbrev pub connection : Proc O (Unit {0})
  connection =
      if s.credential
      then pure tt
      else lift (err service_unavailable "database credential unavailable")

  abbrev pub instrument_type_count : Proc O ℕ
  instrument_type_count = do
    connection
    transact s.turns (λ _ db. query (ok (length db.instruments)) db)

  abbrev pub enqueue : Work → Proc O (ℕ × Bool)
  enqueue w = transact s.turns (λ t. on_queue (enqueue_job t.now w))

  unfoldable pub enqueue_scrape : String → String → ℕ → ℕ → String → ℤ → Proc O (ℕ × Bool)
  unfolding transact
  enqueue_scrape county instrument start end key priority = do
    connection
    c ← transact s.turns (λ _ db. query (resolve_county s.ilike county db) db)
    i ← transact s.turns (λ _ db. query (resolve_instrument s.ilike instrument db) db)
    enqueue (scrape_work c i start end key priority)

  -- The loop over the instruments.
  unfoldable pub enqueue_each : County → String → ℤ → List Instrument → Proc O (List (ℕ × Bool))
  unfolding transact instrument_key
  enqueue_each c key priority [] = pure []
  enqueue_each c key priority (i ∷ is) = do
    job ← enqueue (discover_work c i (instrument_key key i.id) priority)
    jobs ← enqueue_each c key priority is
    pure (job ∷ jobs)

  unfoldable pub enqueue_county : String → String → ℤ → Proc O (List (ℕ × Bool))
  unfolding enqueue_each
  enqueue_county county key priority = do
    connection
    c ← transact s.turns (λ _ db. query (resolve_county s.ilike county db) db)
    is ← transact s.turns (λ _ db. query (ok (sort_by (λ i. i.id) db.instruments)) db)
    enqueue_each c key priority is

  unfoldable pub enqueue_discovery : String → String → Proc O (List (ℕ × Bool))
  unfolding enqueue_each
  enqueue_discovery county key = do
    connection
    c ← transact s.turns (λ _ db. query (resolve_county s.ilike county db) db)
    is ← transact s.turns (λ _ db. query (ok (sort_by (λ i. i.id) db.instruments)) db)
    enqueue_each c key (pos 50) is

  unfoldable pub set_paused : ℕ → Bool → Proc O (ℕ × State)
  unfolding transact
  set_paused job_id pausing = do
    connection
    transact s.turns (λ t. on_queue (Enqueue.set_paused t.now job_id pausing))
