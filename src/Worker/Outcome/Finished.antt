-- ===== src/Worker/Outcome/Finished.antt =====
-- The statuses of `process_once`.
use shadowglass_v35_runtime.Common.{
  ℕ, String, ◌≡◌, refl, true, Option, none, some, [], arith, str_eq, Bool-cases, inl, inr,
  if◌then◌else◌,
}
use shadowglass_v35_runtime.Common.Result.{Result, Exception, ok, err, lease_fence_rejected}
use shadowglass_v35_runtime.Queue.Row.{Queue, QueueJob, State}
use shadowglass_v35_runtime.Queue.Claim.{claim_job}
use shadowglass_v35_runtime.Queue.Lease.{complete_job}
use shadowglass_v35_runtime.Database.Context.{JobContext}
use shadowglass_v35_runtime.Database.Discovery.{complete_discovery}
use shadowglass_v35_runtime.Database.Scrape.{complete_scrape}
use shadowglass_v35_runtime.Worker.Payload.{Task}
use shadowglass_v35_runtime.Worker.Proc.{
  Env, World, Proc, continue, ◌>>=◌, yielded, pure, lift, transact, on_queue,
}
use shadowglass_v35_runtime.Worker.Process.{
  is_invalid_job, Status, dead, completed, failed, Prepared, canary_job, context_job, remote,
  fenced, persist_pages, work, work_canary, work_discovery, work_scrape, fail_with, recovered_from,
  reject, dispatch, prepare, handle, process_once,
}
use shadowglass_v35_runtime.Worker.Outcome.{
  JobDone, Completes, Completes-bind, Completes-transact, update_owned-JobDone,
  complete_discovery-JobDone, complete_scrape-JobDone,
}

complete_job-JobDone :
    (now i t : ℕ) (q : Queue)
    → (complete_job now i t q).0 ≡ true
    → JobDone i (complete_job now i t q).1
unfolding complete_job
complete_job-JobDone now i t q e = update_owned-JobDone now i t q e

module _ {O : Type 0} (env : Env O) (job : QueueJob) where
  open env use {turns, casefold, scraper, store, worker, seconds}

  acknowledge-Completes : Completes {O = O} job.id (
      transact turns (λ t. on_queue (λ q. ok (complete_job t.now job.id job.lease_token q)))
      >>= λ acked.
          if acked
          then pure completed
          else lift (err lease_fence_rejected "canary lease expired before completion"))
  unfolding transact
  acknowledge-Completes = record {
    at = λ w e.
        let now = (turns w.turn).now in
        let q = (yielded turns w).db.queue in
        elim (Bool-cases (complete_job now job.id job.lease_token q).0) [
          | inl acked ↦ rw acked (complete_job-JobDone now job.id job.lease_token q acked)
          | inr lost ↦ absurd (ground (arith, lost))
        ];
  }

  canary-Completes : (id target : String) → Completes {O = O} job.id (work_canary env job id target)
  canary-Completes id target =
      Completes-bind job.id
        (if str_eq target worker
          then pure tt
          else lift (err lease_fence_rejected "canary was claimed by a non-target worker"))
        _
        λ _. Completes-bind job.id (lift (store.canary_key id)) _ λ key.
          Completes-bind job.id (fenced env job key (store.put_canary id)) _
            λ _. acknowledge-Completes

  discovery-Completes : (c : JobContext) → Completes {O = O} job.id (work_discovery env job c)
  discovery-Completes c = Completes-bind job.id (remote env job (scraper.discover c)) _ λ result.
      Completes-transact job.id turns
        (λ u. complete_discovery u.now u.acked job c result.total_records result.page_count)
        (λ n db a db' e.
          complete_discovery-JobDone (turns n).now (turns n).acked job c result.total_records
            result.page_count db {n = a} {db' = db'} e)

  scrape-Completes :
      (t : Task) (c : JobContext) → Completes {O = O} job.id (work_scrape env job t c)
  scrape-Completes t c =
      Completes-bind job.id (remote env job (scraper.scrape c t.start_page t.end_page)) _ λ pages.
        Completes-bind job.id (persist_pages env job c pages []) _ λ persisted.
          Completes-transact job.id turns (λ u. complete_scrape u.now u.acked job c persisted)
            (λ n db a db' e.
              complete_scrape-JobDone (turns n).now (turns n).acked job c persisted db {n = a}
                {db' = db'} e)

  work-Completes :
      (p : Prepared) (w : World O)
      → (work env job p w).0 ≡ ok completed
      → JobDone job.id (work env job p w).1.db.queue
  unfolding work
  work-Completes (canary_job id target) w e = (canary-Completes id target).at w e
  work-Completes (context_job t c) w e = elim (Bool-cases (str_eq job.job_kind "discover")) [
    | inl d ↦ rw d ((discovery-Completes c).at w (rw d at e))
    | inr s ↦ rw s ((scrape-Completes t c).at w (rw s at e))
  ]

  failed-uncompleted :
      (r : Result State) (w : World O)
      → (continue r (λ s. pure {O = O} (failed s)) w).0 ≡ ok completed
      → ⊥
  failed-uncompleted (ok s) w e = cc
  failed-uncompleted (err f m) w e = cc

  fail_with-uncompleted :
      (f : Exception) (w : World O) → (fail_with env job f w).0 ≡ ok completed → ⊥
  fail_with-uncompleted f w e = failed-uncompleted _ _ e

  recovered_from-Completes :
      (r : Result Status) (w : World O)
      → (r ≡ ok completed → JobDone job.id w.db.queue)
      → (recovered_from env job r w).0 ≡ ok completed
      → JobDone job.id (recovered_from env job r w).1.db.queue
  unfolding recovered_from
  recovered_from-Completes (ok s) w k e = k e
  recovered_from-Completes (err lease_fence_rejected m) w k e = absurd (cc)
  recovered_from-Completes (err f m) w k e = absurd (fail_with-uncompleted f w e)

  rejected-uncompleted :
      {A : Type 0} (r : Result A) (w : World O)
      → (continue r (λ _. pure {O = O} dead) w).0 ≡ ok completed
      → ⊥
  rejected-uncompleted (ok s) w e = cc
  rejected-uncompleted (err f m) w e = cc

  reject-uncompleted :
      (f : Exception) (m : String) (w : World O) → (reject env job f m w).0 ≡ ok completed → ⊥
  reject-uncompleted f m w e = elim (Bool-cases (is_invalid_job f)) [
    | inl bad ↦ rejected-uncompleted _ _ (rw bad at e)
    | inr raised ↦ let h = rw raised at e in cc
  ]

  dispatch-Completes :
      (r : Result Prepared) (w : World O)
      → (dispatch env job r w).0 ≡ ok completed
      → JobDone job.id (dispatch env job r w).1.db.queue
  unfolding dispatch
  dispatch-Completes (ok p) w e =
      recovered_from-Completes (work env job p w).0 (work env job p w).1 (work-Completes p w) e
  dispatch-Completes (err f m) w e = absurd (reject-uncompleted f m w e)

module _ {O : Type 0} (env : Env O) where
  open env use {turns, worker, seconds}

  -- The claim that `process_once` starts with.
  abbrev pub claim_turn : Option String → Proc O (Option QueueJob)
  claim_turn kind =
      transact turns
        (λ t. on_queue (claim_job t.locked t.readings t.between t.now worker seconds kind t.token))

  handled-Completes :
      (r : Result (Option QueueJob)) (w : World O)
      → (continue r (handle env) w).0 ≡ ok completed
      → (job : QueueJob) × (r ≡ ok (some job))
        × JobDone job.id (continue r (handle env) w).1.db.queue
  handled-Completes (ok none) w e = absurd (cc)
  handled-Completes (ok (some job)) w e =
      (job, refl, dispatch-Completes env job (prepare env job w).0 (prepare env job w).1 e)
  handled-Completes (err f m) w e = absurd (cc)

  -- Where `process_once` answers "completed", its claim handed out a job, and that job's row is
  -- completed when it returns.
  pub process_once-JobDone :
      (kind : Option String) (w : World O)
      → (process_once env kind w).0 ≡ ok completed
      → (job : QueueJob) × ((claim_turn kind w).0 ≡ ok (some job))
        × JobDone job.id (process_once env kind w).1.db.queue
  unfolding process_once
  process_once-JobDone kind w e = handled-Completes (claim_turn kind w).0 (claim_turn kind w).1 e
