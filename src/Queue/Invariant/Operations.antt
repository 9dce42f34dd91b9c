-- ===== src/Queue/Invariant/Operations.antt =====
-- Every operation of the queue keeps its invariant, and only evolves and extends the table.
use shadowglass_v35_runtime.Common.{
  ℕ, ◌≤◌, String, ◌≡◌, refl, Bool, true, false, Option, none, some, All, All_of_all, All-implies,
  arith, ◌&&◌, ltb,
}
use shadowglass_v35_runtime.Common.Result.{ok}
use shadowglass_v35_runtime.Queue.Row.{Row, Queue, QueueJob, is_pending, dead}
use shadowglass_v35_runtime.Queue.Table.{
  change, update_where, select_first, letter_of, insert_select,
}
use shadowglass_v35_runtime.Queue.Lease.{update_owned, owned_by}
use shadowglass_v35_runtime.Queue.Recover.{
  Readings, is_exhausted, is_stale, expired_error, bury, requeue, record_exhausted, bury_exhausted,
  requeue_stale, recover_stale_leases,
}
use shadowglass_v35_runtime.Queue.Claim.{
  is_eligible, is_candidate, lease, has_id, take_candidate, claim_statement, claim_job,
}
use shadowglass_v35_runtime.Queue.Invariant.Evolve.{is_final}
use shadowglass_v35_runtime.Queue.Invariant.Valid.{IsStep, change-IsStep, map-IsValid}
use shadowglass_v35_runtime.Queue.Invariant.Letters.{insert_select-IsValid}
use shadowglass_v35_runtime.Queue.Invariant.Extends.{Extends-refl, Extends-map, Keeps, Keeps-trans}
use shadowglass_v35_runtime.Queue.Invariant.Select.{
  In, select_first-In, id_unique, update_where-refine,
}
use shadowglass_v35_runtime.Queue.Invariant.Steps.{bury-IsStep, requeue-IsStep}

-- An UPDATE whose assignment is a step.
pub update_where-Keeps :
    (test : Row → Bool) (f : Row → Row) (q : Queue)
    → IsStep (change test f)
    → Keeps q (record q { rows = update_where test f q.rows })
unfolding update_where
update_where-Keeps test f q s v =
    (map-IsValid (change test f) s q v, Extends-map (change test f) s q.rows)

pub update_owned-Keeps :
    (now i t : ℕ) (f : Row → Row) (q : Queue)
    → IsStep (change (owned_by now i t) f)
    → Keeps q (update_owned now i t f q).1
unfolding update_owned
update_owned-Keeps now i t f q s = update_where-Keeps (owned_by now i t) f q s

-- Dead letters and the burial of at least their rows, in one transaction.
pub bury-Keeps :
    (now : ℕ) (noted test : Row → Bool) (error : Row → Option String) (at : ℕ) (q : Queue)
    → All (λ r. noted r ≡ true → test r ≡ true) q.rows
    → IsStep (change test (bury now error))
    → Keeps q (record q {
      rows = update_where test (bury now error) q.rows;
      dead_letters = insert_select noted (letter_of at error) q.rows q.dead_letters;
    })
unfolding update_where
bury-Keeps now noted test error at q covers s v = (
  insert_select-IsValid at error (change test (bury now error)) s noted q
      (All-implies (λ r. noted r ≡ true → test r ≡ true)
        (λ r. noted r ≡ true → (change test (bury now error) r).state ≡ dead) q.rows
        (λ r c h. ground (arith, c h)) covers)
      v,
  Extends-map (change test (bury now error)) s q.rows,
)

exhausted_alive : (now : ℕ) (r : Row) → is_exhausted now r ≡ true → is_final r.state ≡ false
unfolding is_exhausted
exhausted_alive now r h = ground arith

exhausted_later :
    (now later : ℕ) (r : Row)
    → now ≤ later
    → is_exhausted now r ≡ true
    → is_exhausted later r ≡ true
unfolding is_exhausted
exhausted_later now later r le h = ground arith

requeue_stale-Keeps : (now : ℕ) (q : Queue) → Keeps q (requeue_stale now q)
unfolding requeue_stale
requeue_stale-Keeps now q = update_where-Keeps (is_stale now) (requeue now) q (requeue-IsStep now)

recorded_buried-Keeps :
    (now later : ℕ) (q : Queue)
    → now ≤ later
    → Keeps q (bury_exhausted later (record_exhausted now q))
unfolding record_exhausted bury_exhausted
recorded_buried-Keeps now later q le =
    bury-Keeps later (is_exhausted now) (is_exhausted later) expired_error now q
      (All_of_all (λ r. is_exhausted now r ≡ true → is_exhausted later r ≡ true) q.rows
        (λ r. exhausted_later now later r le))
      (bury-IsStep later (is_exhausted later) expired_error (exhausted_alive later))

-- The recovery keeps the invariant, its clock readings in order.
pub recover_stale_leases-Keeps :
    (t : Readings) (q : Queue) → t.recorded ≤ t.buried → Keeps q (recover_stale_leases t q).1
unfolding recover_stale_leases
recover_stale_leases-Keeps t q le =
    let after = bury_exhausted t.buried (record_exhausted t.recorded q) in
    Keeps-trans q after (requeue_stale t.requeued after)
      (recorded_buried-Keeps t.recorded t.buried q le) (requeue_stale-Keeps t.requeued after)

-- What a candidate row is, whoever claims it.
abbrev claimable : Row → Bool
claimable r = is_pending r.state && ltb r.attempts r.max_attempts

lease-IsStep :
    (n now : ℕ) (worker : String) (token seconds : ℕ)
    → IsStep (change (λ r. has_id n r && claimable r) (lease now worker token seconds))
lease-IsStep n now worker token seconds =
    change-IsStep (λ r. has_id n r && claimable r) (lease now worker token seconds)
      (λ r h. ground arith) (λ r h s. ground arith)

candidate_claimable :
    (locked : ℕ → Bool) (now : ℕ) (worker : String) (kind : Option String) (r : Row)
    → is_candidate locked now worker kind r ≡ true
    → claimable r ≡ true
unfolding is_eligible
candidate_claimable locked now worker kind r h = ground arith

module _ (now : ℕ) (worker : String) (token seconds : ℕ) (q : Queue) where
  take_candidate-Keeps :
      (o : Option Row)
      → ((r : Row) → o ≡ some r → In r q.rows × (claimable r ≡ true))
      → Keeps q (take_candidate now worker token seconds q o).1
  take_candidate-Keeps none from v = (v, Extends-refl q.rows)
  take_candidate-Keeps (some r) from v =
      let (i, c) = from r refl in
      let only = id_unique q.rows r v.ids i in
      let known =
        All-implies (λ s. has_id r.id s ≡ true → s ≡ r)
          (λ s. has_id r.id s ≡ true → claimable s ≡ true) q.rows (λ s e h. rw (e h) c) only in
      rw (update_where-refine (has_id r.id) claimable (lease now worker token seconds) q.rows known)
        (update_where-Keeps (λ s. has_id r.id s && claimable s) (lease now worker token seconds) q
          (lease-IsStep r.id now worker token seconds) v)

pub claim_statement-Keeps :
    (locked : ℕ → Bool) (now : ℕ) (worker : String) (seconds : ℕ) (kind : Option String) (token : ℕ)
    (q : Queue)
    → Keeps q (claim_statement locked now worker seconds kind token q).1
unfolding claim_statement
claim_statement-Keeps locked now worker seconds kind token q =
    let test = is_candidate locked now worker kind in
    take_candidate-Keeps now worker token seconds q (select_first test q.rows) (λ r e.
      let (i, t) = select_first-In test q.rows r e in
      (i, candidate_claimable locked now worker kind r t))

pub claim_job-Keeps :
    (locked : ℕ → Bool) (t : Readings) (between : Queue → Queue) (now : ℕ) (worker : String)
    (seconds : ℕ) (kind : Option String) (token : ℕ) (q : Queue) {job : Option QueueJob}
    {q' : Queue}
    → t.recorded ≤ t.buried
    → ((q : Queue) → Keeps q (between q))
    → claim_job locked t between now worker seconds kind token q ≡ ok (job, q')
    → Keeps q q'
unfolding claim_job
claim_job-Keeps locked t between now worker seconds kind token q {q'} le others e =
    let recovered = (recover_stale_leases t q).1 in
    let met = between recovered in
    let same : (claim_statement locked now worker seconds kind token met).1 ≡ q' = ground arith in
    rw (← same) (
      Keeps-trans q met (claim_statement locked now worker seconds kind token met).1
        (Keeps-trans q recovered met (recover_stale_leases-Keeps t q le) (others recovered))
        (claim_statement-Keeps locked now worker seconds kind token met))
