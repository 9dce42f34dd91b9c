-- ===== src/Worker/Outcome/Lost.antt =====
-- queue_worker.py, `process_once`: a job whose lease was lost during its remote work.
use shadowglass_v35_runtime.Worker.Outcome.Finished.{claim_turn}
use shadowglass_v35_runtime.Common.{String, Option, some, ℕ, ◌≤◌, ◌≡◌, refl, false, arith, inl}
use Prim.Native.String
use shadowglass_v35_runtime.Common.Result.{Exception, ok, err, lookup_error, runtime_error}
use shadowglass_v35_runtime.Queue.Row.{Row, QueueJob}
use shadowglass_v35_runtime.Queue.Lease.{extend_lease}
use shadowglass_v35_runtime.Queue.Invariant.Valid.{IsValid}
use shadowglass_v35_runtime.Queue.Invariant.Select.{In}
use shadowglass_v35_runtime.Queue.Ownership.Stale.{IsGone, lapsed_powerless, gone_powerless}
use shadowglass_v35_runtime.Database.Context.{JobContext}
use shadowglass_v35_runtime.Worker.Payload.{Task}
use shadowglass_v35_runtime.Worker.Proc.{Env, Discovery, Script, beat, World, yielded, transact}
use shadowglass_v35_runtime.Worker.Process.{
  class_name, context_job, heartbeat, remote, work, fail_with, recovered_from, attempt, prepare,
  dispatch, process_once,
}

-- The job's row is in the world, and its lease is another's.
pub record HasLost {O : Type 0} (job : QueueJob) (w : World O) : Type 0 where
  pub valid : IsValid w.db.queue
  pub row : Row
  pub listed : In row w.db.queue.rows
  pub named : row.id ≡ job.id
  pub gone : IsGone job.lease_token row

module _ {O : Type 0} (env : Env O) (job : QueueJob) (identified : 1 ≤ job.id) where
  open env use {turns, scraper, seconds}

  extend_lease-lost :
      (now : ℕ) (w : World O)
      → HasLost job w
      → 30 ≤ seconds
      → seconds ≤ 3600
      → extend_lease now job.id job.lease_token seconds w.db.queue ≡ ok (false, w.db.queue)
  extend_lease-lost now w lost lo hi = rw (← lost.named) (
      (lapsed_powerless now job.lease_token lost.row w.db.queue lost.valid lost.listed seconds "k"
        (inl lost.gone) lo hi (rw lost.named identified) refl (omega arith)).0)

  heartbeat-lost :
      (w : World O)
      → HasLost job (yielded turns w)
      → 30 ≤ seconds
      → seconds ≤ 3600
      → heartbeat env job w
        ≡ (err runtime_error "queue lease expired during remote work", yielded turns w)
  unfolding heartbeat transact
  heartbeat-lost w lost lo hi =
      let e = extend_lease-lost (turns w.turn).now (yielded turns w) lost lo hi in rw e refl

  fail_with-lost :
      (f : Exception) (w : World O)
      → HasLost job (yielded turns w)
      → fail_with env job f w
        ≡ (err lookup_error "job lease is missing, expired, or no longer owned", yielded turns w)
  unfolding transact
  fail_with-lost f w lost =
      let message = String.◌++◌ "work failed (" (String.◌++◌ (class_name f) ")") in
      let refused =
        (gone_powerless (turns w.turn).now job.lease_token lost.row (yielded turns w).db.queue
          lost.valid lost.listed message 30 3600 lost.gone (omega arith) (omega arith)).0 in
      rw (rw lost.named at refused) refl

  attempt-lost :
      (t : Task) (c : JobContext) (s : Script Discovery) (w : World O)
      → job.job_kind ≡ "discover"
      → scraper.discover c ≡ beat s
      → HasLost job (yielded turns w)
      → HasLost job (yielded turns (yielded turns w))
      → 30 ≤ seconds
      → seconds ≤ 3600
      → attempt env job (context_job t c) w ≡ (
        err lookup_error "job lease is missing, expired, or no longer owned",
        yielded turns (yielded turns w),
      )
  unfolding work remote recovered_from
  attempt-lost t c s w kind beats first second lo hi =
      let h = heartbeat-lost w first lo hi in
      let f = fail_with-lost runtime_error (yielded turns w) second in rw (kind, beats, h) f

-- A run with leases of 30 to 3600 seconds that claims a discovery with an id of at least 1, prepares
-- it, and finds at its first heartbeat and at the attempt to fail the job that another claim or an end
-- of the job has taken the lease, raises a LookupError out of `process_once`. The tables and the
-- objects stay as the preparation and the other processes left them.
pub process_once-lost :
    {O : Type 0} (env : Env O) (kind : Option String) (w claimed ready : World O) (job : QueueJob)
    (t : Task) (c : JobContext) (s : Script Discovery)
    → claim_turn env kind w ≡ (ok (some job), claimed)
    → prepare env job claimed ≡ (ok (context_job t c), ready)
    → job.job_kind ≡ "discover"
    → env.scraper.discover c ≡ beat s
    → 1 ≤ job.id
    → 30 ≤ env.seconds
    → env.seconds ≤ 3600
    → HasLost job (yielded env.turns ready)
    → HasLost job (yielded env.turns (yielded env.turns ready))
    → process_once env kind w ≡ (
      err lookup_error "job lease is missing, expired, or no longer owned",
      yielded env.turns (yielded env.turns ready),
    )
unfolding process_once dispatch
process_once-lost env kind w claimed ready job t c s taken prepared discovers beats id lo hi first
      second =
    rw (taken, prepared) (attempt-lost env job id t c s ready discovers beats first second lo hi)
