-- ===== src/Worker/Keeps/Once.antt =====
-- The parts of `process_once`, and the whole.
use shadowglass_v35_runtime.Common.{
  ℕ, String, ◌≡◌, Option, none, some, List, [], ◌∷◌, arith, str_eq,
}
use Prim.Native.String
use shadowglass_v35_runtime.Common.Result.{Result, Exception, ok, err, lease_fence_rejected}
use shadowglass_v35_runtime.Queue.Row.{Queue, QueueJob}
use shadowglass_v35_runtime.Queue.Claim.{claim_job}
use shadowglass_v35_runtime.Queue.Lease.{
  LeaseWriteFence, extend_lease, complete_job, lease_write_fence,
}
use shadowglass_v35_runtime.Queue.Fail.{fail_job, dead_letter_job}
use shadowglass_v35_runtime.Queue.Invariant.Extends.{Keeps, Keeps-refl, Keeps-trans}
use shadowglass_v35_runtime.Queue.Invariant.Operations.{claim_job-Keeps}
use shadowglass_v35_runtime.Queue.Invariant.Failures.{
  extend_lease-Keeps, complete_job-Keeps, fail_job-Keeps, dead_letter_job-Keeps,
}
use shadowglass_v35_runtime.Database.Tables.{Db}
use shadowglass_v35_runtime.Database.Context.{JobContext, load_job_context}
use shadowglass_v35_runtime.Database.Scrape.{PersistedPage, complete_scrape}
use shadowglass_v35_runtime.Database.Discovery.{complete_discovery}
use shadowglass_v35_runtime.Database.Keeps.{complete_discovery-Keeps, complete_scrape-Keeps}
use shadowglass_v35_runtime.Worker.Payload.{Validated, canary, task}
use shadowglass_v35_runtime.Worker.Proc.{
  Env, Turn, ScrapedPage, Script, done, beat, StoredPage, World, yielded, transact, on_queue, query,
}
use shadowglass_v35_runtime.Worker.Process.{
  class_name, Status, dead, completed, stale, failed, idle, Prepared, canary_job, context_job,
  is_invalid_job, hydrated, prepare, heartbeat, remote, put_fenced, fenced, persist_pages, work,
  fail_with, recovered_from, reject, attempt, dispatch, handle, process_once,
}
use shadowglass_v35_runtime.Worker.Keeps.{
  Preserves, Preserves-pure, Preserves-lift, Preserves-if, Preserves-bind, IsFair,
  Preserves-transact, on_queue-Keeps, query-Keeps,
}

module _ {O : Type 0} (env : Env O) (fair : IsFair env.turns) where
  open env use {turns, casefold, scraper, store, worker, seconds}

  -- A statement on the queue alone, of which each success keeps the invariant.
  queue-Preserves :
      {A : Type 0} (body : Turn → Queue → Result (A × Queue))
      → ((n : ℕ) (q : Queue) (a : A) (q' : Queue) → body (turns n) q ≡ ok (a, q') → Keeps q q')
      → Preserves {O = O} (transact turns (λ t. on_queue (body t)))
  queue-Preserves body k =
      Preserves-transact turns fair (λ t. on_queue (body t))
        (λ n db a db' e.
          on_queue-Keeps (body (turns n)) db {a = a} {db' = db'} (λ q' h. k n db.queue a q' h) e)

  hydrated-Preserves : (v : Validated) → Preserves (hydrated env v)
  hydrated-Preserves (canary id target) = Preserves-pure (canary_job id target)
  hydrated-Preserves (task t) =
      Preserves-bind _ _
        (Preserves-transact turns fair (λ _ db. query (load_job_context casefold t db) db)
          (λ n db a db' e. query-Keeps (load_job_context casefold t db) db {a = a} {db' = db'} e))
        λ c. Preserves-pure (context_job t c)

  prepare-Preserves : (job : QueueJob) → Preserves (prepare env job)
  prepare-Preserves job = Preserves-bind _ _ (Preserves-lift _) hydrated-Preserves

  heartbeat-Preserves : (job : QueueJob) → Preserves (heartbeat env job)
  unfolding heartbeat
  heartbeat-Preserves job =
      Preserves-bind _ _
        (queue-Preserves (λ t. extend_lease t.now job.id job.lease_token seconds)
          (λ n q a q' e.
            extend_lease-Keeps (turns n).now job.id job.lease_token seconds q {b = a} {q' = q'} e))
        λ owned. Preserves-if owned _ _ (Preserves-pure tt) (Preserves-lift _)

  remote-Preserves : {A : Type 0} (job : QueueJob) (s : Script A) → Preserves (remote env job s)
  unfolding remote
  remote-Preserves job (done r) = Preserves-lift r
  remote-Preserves job (beat s) =
      Preserves-bind _ _ (heartbeat-Preserves job) λ _. remote-Preserves job s

  put_fenced-Keeps :
      (put : LeaseWriteFence → O → Result StoredPage × O) (r : Result (LeaseWriteFence × Db))
      (w : World O)
      → Keeps w.db.queue (put_fenced env put r w).1.db.queue
  put_fenced-Keeps put (err e m) w = Keeps-refl w.db.queue
  put_fenced-Keeps put (ok (fence, db)) w = Keeps-refl w.db.queue

  fenced-Preserves :
      (job : QueueJob) (key : String) (put : LeaseWriteFence → O → Result StoredPage × O)
      → Preserves (fenced env job key put)
  unfolding fenced
  fenced-Preserves job key put = record {
    at = λ w.
        let w' = yielded turns w in
        let r =
          query (lease_write_fence (turns w.turn).now job.id job.lease_token key w'.db.queue)
            w'.db in
        Keeps-trans w.db.queue w'.db.queue (put_fenced env put r w').1.db.queue
          (fair.others_keep w.turn w.db) (put_fenced-Keeps put r w');
  }

  persist_pages-Preserves :
      (job : QueueJob) (c : JobContext) (pages : List ScrapedPage) (persisted : List PersistedPage)
      → Preserves (persist_pages env job c pages persisted)
  unfolding persist_pages
  persist_pages-Preserves job c [] persisted = Preserves-pure persisted
  persist_pages-Preserves job c (p ∷ ps) persisted =
      Preserves-bind _ _ (heartbeat-Preserves job) λ _.
        Preserves-bind _ _ (Preserves-lift (store.page_key c p.page)) λ key.
          Preserves-bind _ _ (fenced-Preserves job key (store.put_page c p))
            λ stored. persist_pages-Preserves job c ps _

  work-Preserves : (job : QueueJob) (p : Prepared) → Preserves (work env job p)
  unfolding work
  work-Preserves job (canary_job id target) =
      Preserves-bind _ _
        (Preserves-if (str_eq target worker) _ _ (Preserves-pure tt) (Preserves-lift _))
        λ _. Preserves-bind _ _ (Preserves-lift (store.canary_key id)) λ key.
          Preserves-bind _ _ (fenced-Preserves job key (store.put_canary id)) λ stored.
            Preserves-bind _ _
              (queue-Preserves (λ t q. ok (complete_job t.now job.id job.lease_token q))
                (λ n q a q' e.
                  let same : (complete_job (turns n).now job.id job.lease_token q).1 ≡ q' =
                    ground arith in
                  rw (← same) (complete_job-Keeps (turns n).now job.id job.lease_token q)))
              λ acked.
                Preserves-if acked _ _ (Preserves-pure completed) (
                  Preserves-lift
                    (err lease_fence_rejected "canary lease expired before completion"))
  work-Preserves job (context_job t c) =
      Preserves-if (str_eq job.job_kind "discover") _ _
        (Preserves-bind _ _ (remote-Preserves job (scraper.discover c)) λ result.
          Preserves-bind _ _
            (Preserves-transact turns fair
              (λ u. complete_discovery u.now u.acked job c result.total_records result.page_count)
              (λ n db a db' e.
                complete_discovery-Keeps (turns n).now (turns n).acked job c result.total_records
                  result.page_count db {n = a} {db' = db'} e))
            λ _. Preserves-pure completed)
        (Preserves-bind _ _ (remote-Preserves job (scraper.scrape c t.start_page t.end_page))
          λ pages. Preserves-bind _ _ (persist_pages-Preserves job c pages []) λ persisted.
            Preserves-bind _ _
              (Preserves-transact turns fair (λ u. complete_scrape u.now u.acked job c persisted)
                (λ n db a db' e.
                  complete_scrape-Keeps (turns n).now (turns n).acked job c persisted db {n = a}
                    {db' = db'} e))
              λ _. Preserves-pure completed)

  fail_with-Preserves : (job : QueueJob) (e : Exception) → Preserves (fail_with env job e)
  fail_with-Preserves job e =
      let message = String.◌++◌ "work failed (" (String.◌++◌ (class_name e) ")") in
      Preserves-bind _ _
        (queue-Preserves (λ t. fail_job t.now job.id job.lease_token message 30 3600)
          (λ n q a q' h.
            fail_job-Keeps (turns n).now job.id job.lease_token message 30 3600 q {s = a} {q' = q'}
              h))
        λ state. Preserves-pure (failed state)

  recovered_from-Preserves :
      (job : QueueJob) (r : Result Status) → Preserves (recovered_from env job r)
  unfolding recovered_from
  recovered_from-Preserves job (ok s) = Preserves-pure s
  recovered_from-Preserves job (err lease_fence_rejected m) = Preserves-pure stale
  recovered_from-Preserves job (err e m) = fail_with-Preserves job e

  attempt-Preserves : (job : QueueJob) (p : Prepared) → Preserves (attempt env job p)
  attempt-Preserves job p = record {
    at = λ w.
        let (r, w') = work env job p w in
        Keeps-trans w.db.queue w'.db.queue (recovered_from env job r w').1.db.queue
          ((work-Preserves job p).at w) ((recovered_from-Preserves job r).at w');
  }

  reject-Preserves : (job : QueueJob) (e : Exception) (m : String) → Preserves (reject env job e m)
  reject-Preserves job e m =
      Preserves-if (is_invalid_job e) _ _
        (Preserves-bind _ _
          (queue-Preserves (λ t q. ok (dead_letter_job t.now job.id job.lease_token m q))
            (λ n q a q' h.
              let same : (dead_letter_job (turns n).now job.id job.lease_token m q).1 ≡ q' =
                ground arith in
              rw (← same) (dead_letter_job-Keeps (turns n).now job.id job.lease_token m q)))
          λ _. Preserves-pure dead)
        (Preserves-lift (err e m))

  dispatch-Preserves : (job : QueueJob) (r : Result Prepared) → Preserves (dispatch env job r)
  unfolding dispatch
  dispatch-Preserves job (ok p) = attempt-Preserves job p
  dispatch-Preserves job (err e m) = reject-Preserves job e m

  handle-Preserves : (job : Option QueueJob) → Preserves (handle env job)
  handle-Preserves none = Preserves-pure idle
  handle-Preserves (some job) = record {
    at = λ w.
        let (r, w') = prepare env job w in
        Keeps-trans w.db.queue w'.db.queue (dispatch env job r w').1.db.queue
          ((prepare-Preserves job).at w) ((dispatch-Preserves job r).at w');
  }

  -- From a valid queue, whatever the payload, the scraper's and the object store's answers and the
  -- other processes' valid transactions between its own, `process_once` leaves a valid queue, on
  -- every path and also where it raises; the rows of before keep their work and their places, and
  -- do not change once completed or dead.
  pub process_once-Keeps :
      (kind : Option String) (w : World O) → Keeps w.db.queue (process_once env kind w).1.db.queue
  unfolding process_once
  process_once-Keeps kind w =
      (Preserves-bind _ _
          (queue-Preserves
            (λ t. claim_job t.locked t.readings t.between t.now worker seconds kind t.token)
            (λ n q a q' e.
              claim_job-Keeps (turns n).locked (turns n).readings (turns n).between (turns n).now
                worker seconds kind (turns n).token q {job = a} {q' = q'} (fair.in_order n)
                (fair.between_keep n) e))
          handle-Preserves).at
        w
