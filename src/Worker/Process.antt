-- ===== src/Worker/Process.antt =====
-- queue_worker.py: `process_once`.
use shadowglass_v35_runtime.Common.{
  String, Bool, true, false, Option, none, some, List, [], ◌∷◌, ◌++◌, str_eq, if◌then◌else◌,
}
use Prim.Native.String
use shadowglass_v35_runtime.Common.Result.{
  Result, Exception, ok, err, value_error, type_error, lookup_error, runtime_error,
  permanent_job_error, idempotency_conflict, lease_fence_rejected, object_store_error, scrape_error,
  relay_error, relay_configuration_error, canary_error, not_found, job_state_conflict,
  service_unavailable,
}
use shadowglass_v35_runtime.Queue.Row.{QueueJob, State}
use shadowglass_v35_runtime.Queue.Claim.{claim_job}
use shadowglass_v35_runtime.Queue.Lease.{
  LeaseWriteFence, extend_lease, complete_job, lease_write_fence,
}
use shadowglass_v35_runtime.Queue.Fail.{fail_job, dead_letter_job}
use shadowglass_v35_runtime.Database.Tables.{Db}
use shadowglass_v35_runtime.Database.Context.{JobContext, load_job_context}
use shadowglass_v35_runtime.Database.Discovery.{complete_discovery}
use shadowglass_v35_runtime.Database.Scrape.{PersistedPage, complete_scrape}
use shadowglass_v35_runtime.Worker.Payload.{Validated, Task, canary, task, validate_payload}
use shadowglass_v35_runtime.Worker.Proc.{
  Env, ScrapedPage, Script, done, beat, StoredPage, World, Proc, ◌>>=◌, ◌>>◌, yielded, pure, lift,
  transact, on_queue, query,
}

-- `type(exc).__name__`
abbrev pub class_name : Exception → String
class_name value_error = "ValueError"
class_name type_error = "TypeError"
class_name lookup_error = "LookupError"
class_name runtime_error = "RuntimeError"
class_name permanent_job_error = "PermanentJobError"
class_name idempotency_conflict = "IdempotencyConflict"
class_name lease_fence_rejected = "LeaseFenceRejected"
class_name object_store_error = "ObjectStoreError"
class_name scrape_error = "ScrapeError"
class_name relay_error = "RelayRequestError"
class_name relay_configuration_error = "RelayConfigurationError"
class_name canary_error = "CanaryError"
class_name not_found = "NotFound"
class_name job_state_conflict = "JobStateConflict"
class_name service_unavailable = "ServiceUnavailable"

-- `except (PermanentJobError, ValueError, LookupError)`, the subclasses of these included.
abbrev pub is_invalid_job : Exception → Bool
is_invalid_job permanent_job_error = true
is_invalid_job value_error = true
is_invalid_job lookup_error = true
is_invalid_job not_found = true
is_invalid_job _ = false

pub data Status : Type 0 where
  idle dead completed stale : Status
  failed : State → Status

-- What the first `try` prepares: the payload, and the context unless it is a canary.
pub data Prepared : Type 0 where
  canary_job : String → String → Prepared
  context_job : Task → JobContext → Prepared

module _ {O : Type 0} (env : Env O) where
  open env use {turns, casefold, scraper, store, worker, seconds}

  -- `context = None` for a canary
  abbrev pub hydrated : Validated → Proc O Prepared
  hydrated (canary id target) = pure (canary_job id target)
  hydrated (task t) = do
    c ← transact turns (λ _ db. query (load_job_context casefold t db) db)
    pure (context_job t c)

  abbrev pub prepare : QueueJob → Proc O Prepared
  prepare job = do
    valid ← lift (validate_payload job.job_kind job.payload_version job.payload)
    hydrated valid

  -- `heartbeat()`
  unfoldable pub heartbeat : QueueJob → Proc O (Unit {0})
  unfolding transact extend_lease
  heartbeat job = do
    owned ← transact turns (λ t. on_queue (extend_lease t.now job.id job.lease_token seconds))
    if owned then pure tt else lift (err runtime_error "queue lease expired during remote work")

  -- Remote work with its heartbeats.
  unfoldable pub remote : {A : Type 0} → QueueJob → Script A → Proc O A
  unfolding heartbeat
  remote job (done r) = lift r
  remote job (beat rest) = let more = remote job rest in heartbeat job >>= λ _. more

  -- `with lease_write_fence(…) as fence: put(fence)`: the fence is open during the write alone.
  abbrev pub put_fenced :
      (LeaseWriteFence → O → Result StoredPage × O)
      → Result (LeaseWriteFence × Db)
      → World O
      → Result StoredPage × World O
  put_fenced put (err e m) w = (err e m, w)
  put_fenced put (ok (fence, db)) w =
      let (r, objects) = put fence w.objects in (r, record w { objects = objects })

  unfoldable pub fenced :
      QueueJob → String → (LeaseWriteFence → O → Result StoredPage × O) → Proc O StoredPage
  unfolding lease_write_fence
  fenced job key put w =
      let w' = yielded turns w in
      put_fenced put
        (query (lease_write_fence (turns w.turn).now job.id job.lease_token key w'.db.queue) w'.db)
        w'

  abbrev pub work_canary : QueueJob → String → String → Proc O Status
  work_canary job id target = do
    if str_eq target worker
        then pure tt
        else lift (err lease_fence_rejected "canary was claimed by a non-target worker")
    key ← lift (store.canary_key id)
    stored ← fenced job key (store.put_canary id)
    acked ← transact turns (λ t. on_queue (λ q. ok (complete_job t.now job.id job.lease_token q)))
    if acked
        then pure completed
        else lift (err lease_fence_rejected "canary lease expired before completion")

  abbrev pub work_discovery : QueueJob → JobContext → Proc O Status
  work_discovery job c = do
    result ← remote job (scraper.discover c)
    transact turns
        (λ t. complete_discovery t.now t.acked job c result.total_records result.page_count)
    pure completed

  -- The loop over the scraped pages; `persisted` is the list so far.
  unfoldable pub persist_pages :
      QueueJob → JobContext → List ScrapedPage → List PersistedPage → Proc O (List PersistedPage)
  unfolding heartbeat fenced
  persist_pages job c [] persisted = pure persisted
  persist_pages job c (p ∷ ps) persisted = do
    heartbeat job
    key ← lift (store.page_key c p.page)
    stored ← fenced job key (store.put_page c p)
    persist_pages job c ps (
        persisted
        ++ record {
          page = p.page;
          records = p.records;
          object_key = stored.key;
          sha256 = stored.sha256;
          etag = stored.etag;
        }
          ∷ [])

  abbrev pub work_scrape : QueueJob → Task → JobContext → Proc O Status
  work_scrape job t c = do
    pages ← remote job (scraper.scrape c t.start_page t.end_page)
    persisted ← persist_pages job c pages []
    transact turns (λ u. complete_scrape u.now u.acked job c persisted)
    pure completed

  -- The body of the second `try`.
  unfoldable pub work : QueueJob → Prepared → Proc O Status
  unfolding remote persist_pages
  work job (canary_job id target) = work_canary job id target
  work job (context_job t c) =
      if str_eq job.job_kind "discover" then work_discovery job c else work_scrape job t c

  abbrev pub fail_with : QueueJob → Exception → Proc O Status
  fail_with job e = do
    state ← transact turns (λ t. on_queue (
        fail_job t.now job.id job.lease_token
          (String.◌++◌ "work failed (" (String.◌++◌ (class_name e) ")")) 30 3600))
    pure (failed state)

  -- `except storage.LeaseFenceRejected`, then `except Exception`
  unfoldable pub recovered_from : QueueJob → Result Status → Proc O Status
  unfolding transact
  recovered_from job (ok s) = pure s
  recovered_from job (err lease_fence_rejected m) = pure stale
  recovered_from job (err e m) = fail_with job e

  -- `except (PermanentJobError, ValueError, LookupError)` around the preparation
  abbrev pub reject : QueueJob → Exception → String → Proc O Status
  reject job e m =
      if is_invalid_job e
      then (do
        transact turns (λ t. on_queue (λ q. ok (dead_letter_job t.now job.id job.lease_token m q)))
        pure dead)
      else lift (err e m)

  abbrev pub attempt : QueueJob → Prepared → Proc O Status
  attempt job p w = let (r, w') = work job p w in recovered_from job r w'

  unfoldable pub dispatch : QueueJob → Result Prepared → Proc O Status
  unfolding work recovered_from transact
  dispatch job (ok p) = attempt job p
  dispatch job (err e m) = reject job e m

  abbrev pub handle_job : QueueJob → Proc O Status
  handle_job job w = let (r, w') = prepare job w in dispatch job r w'

  abbrev pub handle : Option QueueJob → Proc O Status
  handle none = pure idle
  handle (some job) = handle_job job

  unfoldable pub process_once : Option String → Proc O Status
  unfolding dispatch
  process_once kind = do
    job ←
        transact turns (λ t.
          on_queue (claim_job t.locked t.readings t.between t.now worker seconds kind t.token))
    handle job
