-- ===== src/Queue/Recovery/Taken.antt =====
-- A stale lease does not hold up the queue.
use shadowglass_v35_runtime.Common.{
  ℕ, ◌≤◌, ◌<◌, ◌≡◌, ◌≢◌, refl, ◌∙◌, inl, inr, String, Bool, true, false, not, ◌||◌, Option, none,
  some, ltb, List, [], ◌∷◌, All, str_eq, leb, arith,
}
use shadowglass_v35_runtime.Common.Text.{is_empty, strip}
use shadowglass_v35_runtime.Common.Result.{ok}
use shadowglass_v35_runtime.Json.{text_at}
use shadowglass_v35_runtime.Queue.Row.{Row, Queue, QueueJob}
use shadowglass_v35_runtime.Queue.Recover.{Readings, requeue, recover_stale_leases}
use shadowglass_v35_runtime.Queue.Claim.{
  text_is, kind_allowed, is_eligible, is_candidate, claim_statement, kind_approved, claim_job,
}
use shadowglass_v35_runtime.Queue.Invariant.Select.{In}
use shadowglass_v35_runtime.Queue.Ownership.Owner.{claim_statement-none}
use shadowglass_v35_runtime.Queue.Recovery.{
  recovered, recovered_rows, In-map, HasExpired, stale_expired, stale_recovered,
}

-- The worker may take a job of this kind and for this worker.
abbrev pub MayTake : String → Option String → Row → Type 0
MayTake worker kind r =
    ((not (str_eq r.job_kind "acceptance_canary")
        || text_is (text_at "targetWorkerId" r.payload) worker)
      ≡ true)
    × (kind_allowed kind r ≡ true)

kind_allowed-requeue :
    (kind : Option String) (at : ℕ) (r : Row)
    → kind_allowed kind (requeue at r) ≡ kind_allowed kind r
kind_allowed-requeue none at r = refl
kind_allowed-requeue (some kind) at r = refl

requeued-IsCandidate :
    (locked : ℕ → Bool) (then now : ℕ) (worker : String) (kind : Option String) (r : Row)
    → then ≤ now
    → r.attempts < r.max_attempts
    → MayTake worker kind r
    → locked r.id ≡ false
    → is_candidate locked now worker kind (requeue then r) ≡ true
unfolding is_eligible
requeued-IsCandidate locked then now worker kind r le left (own, allowed) free =
    let may : kind_allowed kind (requeue then r) ≡ true =
      kind_allowed-requeue kind then r ∙ allowed in
    let early : leb then now ≡ true = ground arith in
    let able : ltb r.attempts r.max_attempts ≡ true = ground arith in
    rw (early, able, own, may, free) refl

All-In : (P : Row → Type 0) (rows : List Row) (r : Row) → All P rows → In r rows → P r
All-In P [] r h i = absurd i
All-In P (x ∷ rows) r (p, h) (inl same) = rw (← same) p
All-In P (x ∷ rows) r (p, h) (inr i) = All-In P rows r h i

some_job :
    (x : Option QueueJob × Queue)
    → ((q' : Queue) → x ≢ (none, q'))
    → (job : QueueJob) × (q' : Queue) × (x ≡ (some job, q'))
some_job (none, q') h = absurd (h q' refl)
some_job (some job, q') h = (job, q', refl)

module _ (locked : ℕ → Bool) (t : Readings) (between : Queue → Queue) (now : ℕ) (worker : String)
    (seconds : ℕ) (kind : Option String) (token : ℕ) where
  claim_statement-some :
      (q : Queue) (r : Row)
      → In (requeue t.requeued r) q.rows
      → r.attempts < r.max_attempts
      → t.requeued ≤ now
      → MayTake worker kind r
      → locked r.id ≡ false
      → (q' : Queue) → claim_statement locked now worker seconds kind token q ≢ (none, q')
  claim_statement-some q r there left le may free q' empty =
      let (none_passes, _) = claim_statement-none locked now worker seconds kind token q q' empty in
      let passes = requeued-IsCandidate locked t.requeued now worker kind r le left may free in
      let fails =
        All-In (λ s. is_candidate locked now worker kind s ≡ false) q.rows (requeue t.requeued r)
          none_passes there in
      absurd (ground (arith, passes, fails))

  requeued-In :
      (q : Queue) (r : Row)
      → In r q.rows
      → HasExpired t.requeued r
      → r.attempts < r.max_attempts
      → In (requeue t.requeued r) (recover_stale_leases t q).1.rows
  requeued-In q r listed lapsed left =
      let again = stale_recovered t r (stale_expired t.requeued r lapsed left) in
      rw (recovered_rows t q, ← again) (In-map (recovered t) r q.rows listed)

  -- A job whose lease ran out while it has attempts left does not hold up the queue. Let a worker
  -- that may take the job call `claim_job` with valid arguments, its recovery's last update at or
  -- after the lease's end and its claiming statement not before that update. Then the recovery makes
  -- the job pending again; and if the transactions that come between the recovery and the claiming
  -- statement leave that row as it is, and none of them still holds it, the call answers with a job,
  -- though perhaps with another one.
  pub claim_job-some :
      (q : Queue) (r : Row)
      → is_empty (strip worker) ≡ false
      → 5 ≤ seconds
      → seconds ≤ 3600
      → kind_approved kind ≡ true
      → In r q.rows
      → HasExpired t.requeued r
      → r.attempts < r.max_attempts
      → t.requeued ≤ now
      → MayTake worker kind r
      → (In (requeue t.requeued r) (recover_stale_leases t q).1.rows
          → In (requeue t.requeued r) (between (recover_stale_leases t q).1).rows)
      → locked r.id ≡ false
      → In (requeue t.requeued r) (recover_stale_leases t q).1.rows
        × ((job : QueueJob) × (q' : Queue) × (claim_job locked t between now worker seconds kind
                token q
              ≡ ok (some job, q')))
  unfolding claim_job
  claim_job-some q r named lo hi approved listed lapsed left le may stays free =
      let met = between (recover_stale_leases t q).1 in
      let there = requeued-In q r listed lapsed left in
      let (job, q', claimed) =
        some_job (claim_statement locked now worker seconds kind token met)
          (claim_statement-some met r (stays there) left le may free) in
      let low : leb 5 seconds ≡ true = ground arith in
      let high : leb seconds 3600 ≡ true = ground arith in
      (there, (job, q', rw (claim_job, named, low, high, approved, claimed) refl))
