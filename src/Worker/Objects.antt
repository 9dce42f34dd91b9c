-- ===== src/Worker/Objects.antt =====
-- queue_worker.py: `process_once` touches the object store through `put_page` and `put_canary` alone.
use shadowglass_v35_runtime.Common.{
  ℕ, String, Bool, true, false, Option, none, some, List, [], ◌∷◌, str_eq, if◌then◌else◌,
}
use Prim.Native.String
use shadowglass_v35_runtime.Common.Result.{Result, Exception, ok, err, lease_fence_rejected}
use shadowglass_v35_runtime.Queue.Row.{QueueJob}
use shadowglass_v35_runtime.Queue.Lease.{LeaseWriteFence, extend_lease, complete_job}
use shadowglass_v35_runtime.Queue.Claim.{claim_job}
use shadowglass_v35_runtime.Queue.Fail.{fail_job, dead_letter_job}
use shadowglass_v35_runtime.Database.Discovery.{complete_discovery}
use shadowglass_v35_runtime.Database.Tables.{Db}
use shadowglass_v35_runtime.Database.Context.{JobContext, load_job_context}
use shadowglass_v35_runtime.Database.Scrape.{PersistedPage, complete_scrape}
use shadowglass_v35_runtime.Worker.Payload.{Validated, canary, task}
use shadowglass_v35_runtime.Worker.Proc.{
  Env, Turn, ScrapedPage, Script, done, beat, StoredPage, StoreLike, World, Proc, continue, ◌>>=◌,
  yielded, pure, lift, settled, transact, on_queue, query,
}
use shadowglass_v35_runtime.Worker.Process.{
  class_name, Status, dead, completed, stale, failed, idle, Prepared, canary_job, context_job,
  is_invalid_job, hydrated, prepare, heartbeat, remote, put_fenced, fenced, persist_pages, work,
  fail_with, recovered_from, dispatch, handle, process_once,
}

-- A property of the store's state that its two writes keep.
pub record KeepsObjects {O : Type 0} (store : StoreLike O) (I : O → Type 0) : Type 0 where
  pub page_kept :
      (c : JobContext) (p : ScrapedPage) (fence : LeaseWriteFence) (s : O)
      → I s
      → I (store.put_page c p fence s).1
  pub canary_kept :
      (id : String) (fence : LeaseWriteFence) (s : O) → I s → I (store.put_canary id fence s).1

module _ {O : Type 0} (I : O → Type 0) where
  record Kept {A : Type 0} (m : Proc O A) : Type 0 where
    pub at : (w : World O) → I w.objects → I (m w).1.objects

  Kept-pure : {A : Type 0} (a : A) → Kept (pure a)
  Kept-pure a = record { at = λ w h. h }

  Kept-lift : {A : Type 0} (r : Result A) → Kept (lift r)
  Kept-lift r = record { at = λ w h. h }

  Kept-if : {A : Type 0} (b : Bool) (m n : Proc O A) → Kept m → Kept n → Kept (if b then m else n)
  Kept-if true m n km kn = km
  Kept-if false m n km kn = kn

  Kept-continue :
      {A B : Type 0} (r : Result A) (k : A → Proc O B) (w : World O)
      → ((a : A) → Kept (k a))
      → I w.objects
      → I (continue r k w).1.objects
  Kept-continue (ok a) k w kk h = (kk a).at w h
  Kept-continue (err e m) k w kk h = h

  Kept-bind :
      {A B : Type 0} (m : Proc O A) (k : A → Proc O B)
      → Kept m
      → ((a : A) → Kept (k a))
      → Kept (m >>= k)
  Kept-bind m k km kk = record { at = λ w h. Kept-continue (m w).0 k (m w).1 kk (km.at w h) }

  Kept-settled :
      {A : Type 0} (w : World O) (r : Result (A × Db)) → I w.objects → I (settled w r).1.objects
  Kept-settled w (ok (a, db)) h = h
  Kept-settled w (err e m) h = h

  -- A transaction is on the tables.
  Kept-transact :
      {A : Type 0} (turns : ℕ → Turn) (body : Turn → Db → Result (A × Db))
      → Kept (transact turns body)
  unfolding transact
  Kept-transact turns body = record {
    at = λ w h. Kept-settled (yielded turns w) (body (turns w.turn) (yielded turns w).db) h;
  }

  module _ (env : Env O) (keeps : KeepsObjects env.store I) where
    open env use {turns, casefold, scraper, store, worker, seconds}

    hydrated-Kept : (v : Validated) → Kept (hydrated env v)
    hydrated-Kept (canary id target) = Kept-pure (canary_job id target)
    hydrated-Kept (task t) =
        Kept-bind _ _ (Kept-transact turns (λ _ db. query (load_job_context casefold t db) db))
          λ c. Kept-pure (context_job t c)

    heartbeat-Kept : (job : QueueJob) → Kept (heartbeat env job)
    unfolding heartbeat
    heartbeat-Kept job =
        Kept-bind _ _
          (Kept-transact turns (λ t. on_queue (extend_lease t.now job.id job.lease_token seconds)))
          λ owned. Kept-if owned _ _ (Kept-pure tt) (Kept-lift _)

    remote-Kept : {A : Type 0} (job : QueueJob) (s : Script A) → Kept (remote env job s)
    unfolding remote
    remote-Kept job (done r) = Kept-lift r
    remote-Kept job (beat s) = Kept-bind _ _ (heartbeat-Kept job) λ _. remote-Kept job s

    put_fenced-Kept :
        (put : LeaseWriteFence → O → Result StoredPage × O) (r : Result (LeaseWriteFence × Db))
        (w : World O)
        → ((fence : LeaseWriteFence) (s : O) → I s → I (put fence s).1)
        → I w.objects
        → I (put_fenced env put r w).1.objects
    put_fenced-Kept put (err e m) w k h = h
    put_fenced-Kept put (ok (fence, db)) w k h = k fence w.objects h

    fenced-Kept :
        (job : QueueJob) (key : String) (put : LeaseWriteFence → O → Result StoredPage × O)
        → ((fence : LeaseWriteFence) (s : O) → I s → I (put fence s).1)
        → Kept (fenced env job key put)
    unfolding fenced
    fenced-Kept job key put k = record { at = λ w h. put_fenced-Kept put _ (yielded turns w) k h }

    persist_pages-Kept :
        (job : QueueJob) (c : JobContext) (pages : List ScrapedPage)
        (persisted : List PersistedPage)
        → Kept (persist_pages env job c pages persisted)
    unfolding persist_pages
    persist_pages-Kept job c [] persisted = Kept-pure persisted
    persist_pages-Kept job c (p ∷ ps) persisted = Kept-bind _ _ (heartbeat-Kept job) λ _.
        Kept-bind _ _ (Kept-lift (store.page_key c p.page)) λ key.
          Kept-bind _ _ (fenced-Kept job key (store.put_page c p) (keeps.page_kept c p))
            λ stored. persist_pages-Kept job c ps _

    work-Kept : (job : QueueJob) (p : Prepared) → Kept (work env job p)
    unfolding work
    work-Kept job (canary_job id target) =
        Kept-bind _ _ (Kept-if (str_eq target worker) _ _ (Kept-pure tt) (Kept-lift _)) λ _.
          Kept-bind _ _ (Kept-lift (store.canary_key id)) λ key.
            Kept-bind _ _ (fenced-Kept job key (store.put_canary id) (keeps.canary_kept id))
              λ stored.
                Kept-bind _ _
                  (Kept-transact turns
                    (λ t. on_queue (λ q. ok (complete_job t.now job.id job.lease_token q))))
                  λ acked.
                    Kept-if acked _ _ (Kept-pure completed) (
                      Kept-lift (err lease_fence_rejected "canary lease expired before completion"))
    work-Kept job (context_job t c) =
        Kept-if (str_eq job.job_kind "discover") _ _
          (Kept-bind _ _ (remote-Kept job (scraper.discover c)) λ result.
            Kept-bind _ _
              (Kept-transact turns (λ u.
                complete_discovery u.now u.acked job c result.total_records result.page_count))
              λ _. Kept-pure completed)
          (Kept-bind _ _ (remote-Kept job (scraper.scrape c t.start_page t.end_page)) λ pages.
            Kept-bind _ _ (persist_pages-Kept job c pages []) λ persisted.
              Kept-bind _ _
                (Kept-transact turns (λ u. complete_scrape u.now u.acked job c persisted))
                λ _. Kept-pure completed)

    fail_with-Kept : (job : QueueJob) (e : Exception) → Kept (fail_with env job e)
    fail_with-Kept job e =
        let message = String.◌++◌ "work failed (" (String.◌++◌ (class_name e) ")") in
        Kept-bind _ _
          (Kept-transact turns
            (λ t. on_queue (fail_job t.now job.id job.lease_token message 30 3600)))
          λ state. Kept-pure (failed state)

    recovered_from-Kept : (job : QueueJob) (r : Result Status) → Kept (recovered_from env job r)
    unfolding recovered_from
    recovered_from-Kept job (ok s) = Kept-pure s
    recovered_from-Kept job (err lease_fence_rejected m) = Kept-pure stale
    recovered_from-Kept job (err e m) = fail_with-Kept job e

    dispatch-Kept : (job : QueueJob) (r : Result Prepared) → Kept (dispatch env job r)
    unfolding dispatch
    dispatch-Kept job (ok p) = record {
      at = λ w h.
          let (r, w') = work env job p w in
          (recovered_from-Kept job r).at w' ((work-Kept job p).at w h);
    }
    dispatch-Kept job (err e m) =
        Kept-if (is_invalid_job e) _ _
          (Kept-bind _ _
            (Kept-transact turns
              (λ t. on_queue (λ q. ok (dead_letter_job t.now job.id job.lease_token m q))))
            λ _. Kept-pure dead)
          (Kept-lift (err e m))

    handle-Kept : (job : Option QueueJob) → Kept (handle env job)
    handle-Kept none = Kept-pure idle
    handle-Kept (some job) = record {
      at = λ w h.
          let (r, w') = prepare env job w in
          (dispatch-Kept job r).at w' ((Kept-bind _ _ (Kept-lift _) hydrated-Kept).at w h);
    }

    -- What the two writes of the object store keep, a whole run keeps, on every path.
    pub process_once-objects :
        (kind : Option String) (w : World O) → I w.objects → I (process_once env kind w).1.objects
    unfolding process_once
    process_once-objects kind w h =
        (Kept-bind _ _
            (Kept-transact turns (λ t.
              on_queue (claim_job t.locked t.readings t.between t.now worker seconds kind t.token)))
            handle-Kept).at
          w h
