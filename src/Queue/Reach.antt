-- ===== src/Queue/Reach.antt =====
-- Every interleaving of the queue's operations, as a step relation: the API, the workers, the
-- scheduler and the canary each run one transaction at a time, in any order and with any arguments.
use shadowglass_v35_runtime.Common.{ℕ, ◌≤◌, String, ◌≡◌, Bool, Option, []}
use shadowglass_v35_runtime.Common.Result.{ok}
use shadowglass_v35_runtime.Queue.Row.{Queue, QueueJob, State}
use shadowglass_v35_runtime.Queue.Lease.{extend_lease, renew_lease, complete_job}
use shadowglass_v35_runtime.Queue.Recover.{Readings, recover_stale_leases}
use shadowglass_v35_runtime.Queue.Claim.{claim_job, claim_statement}
use shadowglass_v35_runtime.Queue.Fail.{fail_job, dead_letter_job, cancel_acceptance_canary}
use shadowglass_v35_runtime.Queue.Enqueue.{Work, enqueue_job, set_paused}
use shadowglass_v35_runtime.Queue.Invariant.Valid.{IsValid}
use shadowglass_v35_runtime.Queue.Invariant.Extends.{Extends, Keeps, Keeps-refl, Keeps-trans}
use shadowglass_v35_runtime.Queue.Invariant.Operations.{
  recover_stale_leases-Keeps, claim_statement-Keeps, claim_job-Keeps,
}
use shadowglass_v35_runtime.Queue.Invariant.Failures.{
  extend_lease-Keeps, renew_lease-Keeps, complete_job-Keeps, fail_job-Keeps, dead_letter_job-Keeps,
  cancel_acceptance_canary-Keeps,
}
use shadowglass_v35_runtime.Queue.Invariant.Insertions.{enqueue_job-Keeps, set_paused-Keeps}

-- One transaction that commits. A `claim` is a whole call, its recovery followed at once by its
-- claiming statement; as the two commit apart, other steps may also stand between a `recover` and a
-- `take`.
pub data Step (q q' : Queue) : Type 0 where
  enqueue : (now : ℕ) (w : Work) (x : ℕ × Bool) → enqueue_job now w q ≡ ok (x, q') → Step q q'
  recover : (t : Readings) → t.recorded ≤ t.buried → (recover_stale_leases t q).1 ≡ q' → Step q q'
  claim :
      (locked : ℕ → Bool) (t : Readings) (now : ℕ) (worker : String) (seconds : ℕ)
      (kind : Option String) (token : ℕ) (job : Option QueueJob)
      → t.recorded ≤ t.buried
      → claim_job locked t (λ p. p) now worker seconds kind token q ≡ ok (job, q')
      → Step q q'
  take :
      (locked : ℕ → Bool) (now : ℕ) (worker : String) (seconds : ℕ) (kind : Option String)
      (token : ℕ)
      → (claim_statement locked now worker seconds kind token q).1 ≡ q'
      → Step q q'
  extend :
      (now id token seconds : ℕ) (owned : Bool)
      → extend_lease now id token seconds q ≡ ok (owned, q')
      → Step q q'
  renew :
      (now id token seconds : ℕ) (owned : Bool)
      → renew_lease now id token seconds q ≡ ok (owned, q')
      → Step q q'
  complete : (now id token : ℕ) → (complete_job now id token q).1 ≡ q' → Step q q'
  fail :
      (now id token : ℕ) (error : String) (base most : ℕ) (s : State)
      → fail_job now id token error base most q ≡ ok (s, q')
      → Step q q'
  dead_letter :
      (now id token : ℕ) (error : String)
      → (dead_letter_job now id token error q).1 ≡ q'
      → Step q q'
  cancel :
      (now id : ℕ) (canary : String) → (cancel_acceptance_canary now id canary q).1 ≡ q' → Step q q'
  pause :
      (now id : ℕ) (pausing : Bool) (x : ℕ × State)
      → set_paused now id pausing q ≡ ok (x, q')
      → Step q q'

pub data Reach (q : Queue) : Queue → Type 0 where
  here : Reach q q
  next : {r s : Queue} → Reach q r → Step r s → Reach q s

Step-Keeps : (q q' : Queue) → Step q q' → Keeps q q'
Step-Keeps q q' (enqueue now w x e) = enqueue_job-Keeps now w q e
Step-Keeps q q' (recover t le e) = rw (← e) (recover_stale_leases-Keeps t q le)
Step-Keeps q q' (claim locked t now worker seconds kind token job le e) =
    claim_job-Keeps locked t (λ p. p) now worker seconds kind token q le Keeps-refl e
Step-Keeps q q' (take locked now worker seconds kind token e) =
    rw (← e) (claim_statement-Keeps locked now worker seconds kind token q)
Step-Keeps q q' (extend now id token seconds owned e) = extend_lease-Keeps now id token seconds q e
Step-Keeps q q' (renew now id token seconds owned e) = renew_lease-Keeps now id token seconds q e
Step-Keeps q q' (complete now id token e) = rw (← e) (complete_job-Keeps now id token q)
Step-Keeps q q' (fail now id token error base most s e) =
    fail_job-Keeps now id token error base most q e
Step-Keeps q q' (dead_letter now id token error e) =
    rw (← e) (dead_letter_job-Keeps now id token error q)
Step-Keeps q q' (cancel now id canary e) = rw (← e) (cancel_acceptance_canary-Keeps now id canary q)
Step-Keeps q q' (pause now id pausing x e) = set_paused-Keeps now id pausing q e

-- Whatever transactions run from a valid queue, in any order, the queue stays valid: ids and
-- idempotency keys are unique, every row's columns agree with its state and its attempts with their
-- bounds, and each dead letter belongs to one dead row. The rows of before stand at their places
-- with the same work, no fewer attempts, and unchanged where they were completed or dead.
pub Reach-Keeps : (q q' : Queue) → IsValid q → Reach q q' → IsValid q' × Extends q.rows q'.rows
Reach-Keeps q q' v here = Keeps-refl q v
Reach-Keeps q q' v (next {r} {s} steps last) =
    Keeps-trans q r s (λ w. Reach-Keeps q r w steps) (Step-Keeps r s last) v

-- The queue of a new database.
abbrev pub empty : Queue
empty = record { rows = []; next_id = 1; dead_letters = [] }

pub empty-IsValid : IsValid empty
empty-IsValid = record { sound = tt; ids = tt; keys = tt; below = tt; letters = tt; once = tt }
