-- ===== src/Tests/Jobs.antt =====
-- Tests of storage.py's queue.
use shadowglass_v35_runtime.Common.{
  List, ◌++◌, ◌∷◌, [], ◌<◌, ◌≤◌, String, ◌≡◌, ◌≢◌, refl, inl, inr, true, false, none, some, All,
  arith, find, str_eq, eq_iff,
}
use Prim.Native.Nat.{◌*◌, ◌^◌, ◌-◌, min}
use shadowglass_v35_runtime.Common.Result.{
  ok, err, lookup_error, lease_fence_rejected, idempotency_conflict,
}
use shadowglass_v35_runtime.Common.Text.{is_empty, strip}
use shadowglass_v35_runtime.Json.Dict.{IsDict}
use shadowglass_v35_runtime.Queue.Row.{Row, Queue, QueueJob, pending, dead}
use shadowglass_v35_runtime.Queue.Lease.{
  held_by, extend_lease, renew_lease, complete_job, lease_write_fence, acknowledge,
}
use shadowglass_v35_runtime.Queue.Recover.{
  Readings, requeue, recover_stale_leases, bury, expired_error,
}
use shadowglass_v35_runtime.Queue.Claim.{claim_statement, claim_job, lease, is_candidate}
use shadowglass_v35_runtime.Queue.Fail.{fail_job, dead_letter_job, postpone, safe_error}
use shadowglass_v35_runtime.Queue.Enqueue.{Work, enqueue_job, new_row, has_key}
use shadowglass_v35_runtime.Queue.Invariant.Valid.{IsValid}
use shadowglass_v35_runtime.Queue.Invariant.Extends.{Extends}
use shadowglass_v35_runtime.Queue.Invariant.Select.{In}
use shadowglass_v35_runtime.Queue.Ownership.Owner.{
  IsClaimed, claim_statement-IsClaimed, claim_statement-none,
}
use shadowglass_v35_runtime.Queue.Ownership.Outcome.{is_recorded, complete-claim, fail_job_held}
use shadowglass_v35_runtime.Queue.Ownership.Stale.{lapsed_powerless, gone_powerless}
use shadowglass_v35_runtime.Queue.Recovery.{
  AllPairs, Outcome, HasExpired, still, IsLive, recover_stale_leases_exact,
  recover_stale_leases-IsLive,
}
use shadowglass_v35_runtime.Queue.Recovery.Taken.{claim_job-some}
use shadowglass_v35_runtime.Queue.Recovery.Gap.{letter_lost}
use shadowglass_v35_runtime.Queue.Idempotency.{enqueue_job_idempotent, enqueue_job_conflict}
use shadowglass_v35_runtime.Queue.Reach.{here, next, enqueue, Reach-Keeps}
use shadowglass_v35_runtime.Tests.Samples.{
  discovery, scrape, first, one_job, two_jobs, claimed, claimed_job, running, enqueued_second,
  claimed_statement, claiming, two_jobs-IsValid, running-IsValid,
}

Reach-Keeps_example : IsValid running × Extends two_jobs.rows running.rows
Reach-Keeps_example = Reach-Keeps two_jobs running two_jobs-IsValid (next here claiming)

claim_statement-IsClaimed_example :
    IsClaimed (λ _. false) 40 "w" 60 none 7 two_jobs claimed_job running
claim_statement-IsClaimed_example =
    claim_statement-IsClaimed (λ _. false) 40 "w" 60 none 7 two_jobs claimed_job running
      claimed_statement

nothing_before : claim_statement (λ _. false) 5 "w" 60 none 7 two_jobs ≡ (none, two_jobs)
unfolding claim_statement
nothing_before = refl

claim_statement-none_example :
    All (λ s. is_candidate (λ _. false) 5 "w" none s ≡ false) two_jobs.rows × (two_jobs ≡ two_jobs)
claim_statement-none_example =
    claim_statement-none (λ _. false) 5 "w" 60 none 7 two_jobs two_jobs nothing_before

-- Another discovery is added after the claim.
abbrev third : Work
third = record discovery { idempotency_key = "discover-5-9" }

abbrev busy : Queue
busy = record { rows = running.rows ++ new_row 50 3 third ∷ []; next_id = 4; dead_letters = [] }

added_third : enqueue_job 50 third running ≡ ok ((3, true), busy)
unfolding enqueue_job strip
added_third = refl

listed_before : (r s : Row) (rows : List Row) → In r rows → In r (rows ++ s ∷ [])
listed_before r s [] i = absurd i
listed_before r s (x ∷ rows) (inl same) = inl same
listed_before r s (x ∷ rows) (inr i) = inr (listed_before r s rows i)

complete-claim_example :
    ((complete_job 1000 2 7 busy).0 ≡ true)
    × ((r : Row) × In r two_jobs.rows
        × (r.id ≡ 2)
        × In (acknowledge 1000 (lease 40 "w" 7 60 r)) (complete_job 1000 2 7 busy).1.rows)
complete-claim_example =
    complete-claim (λ _. false) 40 "w" 60 none 7 1000 two_jobs running busy claimed_job
      two_jobs-IsValid claimed_statement (next here (enqueue 50 third (3, true) added_third))
      (λ r _ i. listed_before r (new_row 50 3 third) running.rows i) (omega arith)

lapsed_powerless_example :
    (extend_lease 60000040 2 7 300 running ≡ ok (false, running))
    × (renew_lease 60000040 2 7 300 running ≡ ok (false, running))
    × (complete_job 60000040 2 7 running ≡ (false, running))
    × (lease_write_fence 60000040 2 7 "raw/page" running
        ≡ err lease_fence_rejected "object write lease is no longer live")
lapsed_powerless_example =
    lapsed_powerless 60000040 7 claimed running running-IsValid (inr (inl refl)) 300 "raw/page"
      (inr (60000040, refl, omega arith)) (omega arith) (omega arith) (omega arith) refl
      (omega arith)

gone_powerless_example :
    (fail_job 50 1 7 "late" 30 3600 running
      ≡ err lookup_error "job lease is missing, expired, or no longer owned")
    × (dead_letter_job 50 1 7 "late" running ≡ (false, running))
gone_powerless_example =
    gone_powerless 50 7 first running running-IsValid (inl refl) "late" 30 3600
      (inl (λ e. ground (arith, e))) (omega arith) (omega arith)

held : held_by 2 7 claimed ≡ true
unfolding held_by
held = refl

fail_job_held_example :
    (claimed.attempts < claimed.max_attempts
      → (q' : Queue) × (fail_job 90 2 7 "boom" 30 3600 running ≡ ok (pending, q'))
        × In
            (postpone 90
              (min 3600 (30 * 2 ^ (claimed.attempts - 1)))
              (safe_error "boom" "relay dispatch failed")
              claimed)
            q'.rows
        × (q'.dead_letters ≡ running.dead_letters))
    × (claimed.max_attempts ≤ claimed.attempts
        → (q' : Queue) × (fail_job 90 2 7 "boom" 30 3600 running ≡ ok (dead, q'))
          × In (bury 90 (λ _. some (safe_error "boom" "relay dispatch failed")) claimed) q'.rows
          × (is_recorded 2 q'.dead_letters ≡ true))
fail_job_held_example =
    fail_job_held 90 7 "boom" 30 3600 claimed running running-IsValid (inr (inl refl)) held
      (omega arith) (omega arith)

recover_stale_leases_exact_example :
    AllPairs (Outcome 70000000) running.rows (recover_stale_leases (still 70000000) running).1.rows
    × All
        (λ r.
          HasExpired 70000000 r
          → r.max_attempts ≤ r.attempts
          → is_recorded r.id (recover_stale_leases (still 70000000) running).1.dead_letters ≡ true)
        running.rows
recover_stale_leases_exact_example = recover_stale_leases_exact 70000000 running

abbrev crossing : Readings
crossing = record { recorded = 60000039; buried = 60000040; requeued = 60000041 }

recover_stale_leases-IsLive_example :
    All (IsLive 60000040) (recover_stale_leases crossing running).1.rows
recover_stale_leases-IsLive_example = recover_stale_leases-IsLive crossing running (omega arith)

letter_lost_example :
    In (bury 60000040 expired_error claimed) (recover_stale_leases crossing running).1.rows
    × (is_recorded 2 (recover_stale_leases crossing running).1.dead_letters ≡ false)
letter_lost_example =
    letter_lost crossing claimed running 60000040 running-IsValid (inr (inl refl)) refl
      (omega arith) refl (omega arith) (omega arith) refl

distinct : (a b : String) → str_eq a b ≡ false → a ≢ b
distinct a b f e = let h = (eq_iff a b).1 e in cc

dict : IsDict scrape.payload
dict = ((distinct _ _ refl, (distinct _ _ refl, tt)), ((distinct _ _ refl, tt), (tt, tt)))

enqueue_job_idempotent_example : enqueue_job 900 scrape running ≡ ok ((2, false), running)
enqueue_job_idempotent_example =
    enqueue_job_idempotent scrape 20 900 one_job two_jobs running 2 true two_jobs-IsValid dict
      enqueued_second (next here claiming)

key_taken : find (has_key "scrape-5-8") running.rows ≡ some claimed
unfolding has_key
key_taken = refl

stripped : (is_empty (strip "discover") ≡ false) × (is_empty (strip "scrape-5-8") ≡ false)
unfolding strip
stripped = (refl, refl)

enqueue_job_conflict_example :
    enqueue_job 900 (record scrape { job_kind = "discover" }) running
    ≡ err idempotency_conflict "idempotency key is already bound to different work"
enqueue_job_conflict_example =
    enqueue_job_conflict (record scrape { job_kind = "discover" }) 900 running claimed key_taken
      (inl (distinct _ _ refl)) stripped.0 stripped.1 (omega arith) (omega arith)

-- A worker that took the discovery and vanished.
abbrev vanished : Row
vanished = lease 40 "w" 7 60 first

abbrev held_up : Queue
held_up = record { rows = vanished ∷ []; next_id = 2; dead_letters = [] }

-- The lease runs out between the recovery's first and its last statement.
abbrev lapsing : Readings
lapsing = record { recorded = 60000039; buried = 60000039; requeued = 60000041 }

abbrev adding : Queue → Queue
adding q = record q { rows = q.rows ++ new_row 60000042 3 third ∷ [] }

claim_job-some_example :
    In (requeue 60000041 vanished) (recover_stale_leases lapsing held_up).1.rows
    × ((job : QueueJob) × (q' : Queue) × (claim_job
            (λ _. false)
            lapsing
            adding
            60000043
            "v"
            60
            none
            9
            held_up
          ≡ ok (some job, q')))
unfolding strip
claim_job-some_example =
    claim_job-some (λ _. false) lapsing adding 60000043 "v" 60 none 9 held_up vanished refl
      (omega arith) (omega arith) refl (inl refl) (refl, (60000040, refl, omega arith))
      (omega arith) (omega arith) (refl, refl)
      (λ i.
        listed_before (requeue 60000041 vanished) (new_row 60000042 3 third)
          (recover_stale_leases lapsing held_up).1.rows i)
      refl
