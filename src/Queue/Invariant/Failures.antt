-- ===== src/Queue/Invariant/Failures.antt =====
-- The failing operations and the lease updates keep the queue's invariant.
use shadowglass_v35_runtime.Common.{
  ℕ, String, ◌≡◌, Bool, true, false, Option, none, some, All_of_all, All-implies, arith, find,
  Bool-cases, inl, inr, leb,
}
use shadowglass_v35_runtime.Common.Result.{ok}
use shadowglass_v35_runtime.Queue.Row.{Row, Queue, State}
use shadowglass_v35_runtime.Queue.Table.{update_where}
use shadowglass_v35_runtime.Queue.Lease.{
  held_by, prolong, acknowledge, update_owned, extend_lease, renew_lease, complete_job,
}
use shadowglass_v35_runtime.Queue.Fail.{
  has_token, bury_held, fail_row, fail_job, dead_letter_job, cancel, is_live_canary,
  cancel_acceptance_canary, postpone, backoff, safe_error,
}
use shadowglass_v35_runtime.Queue.Invariant.Evolve.{IsSound, is_final}
use shadowglass_v35_runtime.Queue.Invariant.Extends.{Keeps}
use shadowglass_v35_runtime.Queue.Invariant.Steps.{
  prolong-IsStep, acknowledge-IsStep, bury-IsStep, postpone-IsStep, cancel-IsStep,
}
use shadowglass_v35_runtime.Queue.Invariant.Operations.{
  update_where-Keeps, update_owned-Keeps, bury-Keeps,
}

pub extend_lease-Keeps :
    (now i t secs : ℕ) (q : Queue) {b : Bool} {q' : Queue}
    → extend_lease now i t secs q ≡ ok (b, q')
    → Keeps q q'
unfolding extend_lease
extend_lease-Keeps now i t secs q {q'} e =
    let same : (update_owned now i t (prolong now secs) q).1 ≡ q' = ground arith in
    rw (← same) (update_owned-Keeps now i t (prolong now secs) q (prolong-IsStep now i t secs))

pub renew_lease-Keeps :
    (now i t secs : ℕ) (q : Queue) {b : Bool} {q' : Queue}
    → renew_lease now i t secs q ≡ ok (b, q')
    → Keeps q q'
unfolding renew_lease
renew_lease-Keeps now i t secs q {q'} e =
    let same : (update_owned now i t (prolong now secs) q).1 ≡ q' = ground arith in
    rw (← same) (update_owned-Keeps now i t (prolong now secs) q (prolong-IsStep now i t secs))

pub complete_job-Keeps : (now i t : ℕ) (q : Queue) → Keeps q (complete_job now i t q).1
unfolding complete_job
complete_job-Keeps now i t q =
    update_owned-Keeps now i t (acknowledge now) q (acknowledge-IsStep now i t)

held_alive : (i t : ℕ) (r : Row) → held_by i t r ≡ true → is_final r.state ≡ false
unfolding held_by
held_alive i t r h = ground arith

bury_held-Keeps :
    (now i t : ℕ) (error : String) (q : Queue)
    → Keeps q (bury_held now (held_by i t) (held_by i t) error q)
unfolding bury_held
bury_held-Keeps now i t error q =
    bury-Keeps now (held_by i t) (held_by i t) (λ _. some error) now q
      (All_of_all (λ r. held_by i t r ≡ true → held_by i t r ≡ true) q.rows (λ r h. h))
      (bury-IsStep now (held_by i t) (λ _. some error) (held_alive i t))

pub dead_letter_job-Keeps :
    (now i t : ℕ) (error : String) (q : Queue) → Keeps q (dead_letter_job now i t error q).1
unfolding dead_letter_job
dead_letter_job-Keeps now i t error q = bury_held-Keeps now i t (safe_error error "invalid job") q

pub cancel_acceptance_canary-Keeps :
    (now i : ℕ) (canary : String) (q : Queue) → Keeps q (cancel_acceptance_canary now i canary q).1
unfolding cancel_acceptance_canary
cancel_acceptance_canary-Keeps now i canary q =
    update_where-Keeps (is_live_canary i canary) (cancel now) q (cancel-IsStep now i canary)

-- Only a row in processing has a token.
held_of_token : (i t : ℕ) (r : Row) → IsSound r → has_token i t r ≡ true → held_by i t r ≡ true
unfolding has_token held_by
held_of_token i t r s h = ground (arith, s.agrees)

bury_token-Keeps :
    (now i t : ℕ) (error : String) (q : Queue)
    → Keeps q (bury_held now (has_token i t) (held_by i t) error q)
unfolding bury_held
bury_token-Keeps now i t error q v =
    bury-Keeps now (has_token i t) (held_by i t) (λ _. some error) now q
      (All-implies IsSound (λ r. has_token i t r ≡ true → held_by i t r ≡ true) q.rows
        (λ r s. held_of_token i t r s) v.sound)
      (bury-IsStep now (held_by i t) (λ _. some error) (held_alive i t)) v

fail_row-Keeps :
    (now i t : ℕ) (error : String) (base most : ℕ) (q : Queue) (o : Option Row) {s : State}
    {q' : Queue}
    → fail_row now i t error base most q o ≡ ok (s, q')
    → Keeps q q'
fail_row-Keeps now i t error base most q none e = cc
fail_row-Keeps now i t error base most q (some r) {q'} e =
    elim (Bool-cases (leb r.max_attempts r.attempts)) [
      | inl spent ↦
          let same : bury_held now (has_token i t) (held_by i t) error q ≡ q' = ground arith in
          rw (← same) (bury_token-Keeps now i t error q)
      | inr left ↦
          let f = postpone now (backoff base most r.attempts) error in
          let same : record q { rows = update_where (held_by i t) f q.rows } ≡ q' = ground arith in
          rw (← same) (
            update_where-Keeps (held_by i t) f q
              (postpone-IsStep now i t (backoff base most r.attempts) error))
    ]

pub fail_job-Keeps :
    (now i t : ℕ) (error : String) (base most : ℕ) (q : Queue) {s : State} {q' : Queue}
    → fail_job now i t error base most q ≡ ok (s, q')
    → Keeps q q'
unfolding fail_job
fail_job-Keeps now i t error base most q {s} {q'} e =
    fail_row-Keeps now i t (safe_error error "relay dispatch failed") base most q
      (find (held_by i t) q.rows) {s = s} {q' = q'} (ground arith)
