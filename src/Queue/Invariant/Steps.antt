-- ===== src/Queue/Invariant/Steps.antt =====
-- Each UPDATE of the queue is a step: it keeps rows sound, and only evolves them.
use shadowglass_v35_runtime.Common.{ℕ, String, ◌≡◌, Bool, true, false, Option, arith}
use shadowglass_v35_runtime.Queue.Row.{Row}
use shadowglass_v35_runtime.Queue.Table.{change}
use shadowglass_v35_runtime.Queue.Lease.{held_by, owned_by, prolong, acknowledge}
use shadowglass_v35_runtime.Queue.Recover.{is_stale, bury, requeue}
use shadowglass_v35_runtime.Queue.Fail.{postpone, is_live_canary, cancel}
use shadowglass_v35_runtime.Queue.Enqueue.{is_switchable, switch}
use shadowglass_v35_runtime.Queue.Invariant.Evolve.{is_final}
use shadowglass_v35_runtime.Queue.Invariant.Valid.{IsStep, change-IsStep}

pub prolong-IsStep : (now i t secs : ℕ) → IsStep (change (owned_by now i t) (prolong now secs))
unfolding owned_by
prolong-IsStep now i t secs =
    change-IsStep (owned_by now i t) (prolong now secs) (λ r h. ground arith)
      (λ r h s. ground arith)

pub acknowledge-IsStep : (now i t : ℕ) → IsStep (change (owned_by now i t) (acknowledge now))
unfolding owned_by
acknowledge-IsStep now i t =
    change-IsStep (owned_by now i t) (acknowledge now) (λ r h. ground arith) (λ r h s. ground arith)

pub bury-IsStep :
    (now : ℕ) (test : Row → Bool) (error : Row → Option String)
    → ((r : Row) → test r ≡ true → is_final r.state ≡ false)
    → IsStep (change test (bury now error))
bury-IsStep now test error alive =
    change-IsStep test (bury now error) (λ r h. ground (arith, alive r h)) (λ r h s. ground arith)

pub requeue-IsStep : (now : ℕ) → IsStep (change (is_stale now) (requeue now))
unfolding is_stale
requeue-IsStep now =
    change-IsStep (is_stale now) (requeue now) (λ r h. ground arith) (λ r h s. ground arith)

pub postpone-IsStep :
    (now i t secs : ℕ) (error : String) → IsStep (change (held_by i t) (postpone now secs error))
unfolding held_by
postpone-IsStep now i t secs error =
    change-IsStep (held_by i t) (postpone now secs error) (λ r h. ground arith)
      (λ r h s. ground arith)

pub cancel-IsStep :
    (now i : ℕ) (canary : String) → IsStep (change (is_live_canary i canary) (cancel now))
unfolding is_live_canary
cancel-IsStep now i canary =
    change-IsStep (is_live_canary i canary) (cancel now) (λ r h. ground arith)
      (λ r h s. ground arith)

pub switch-IsStep :
    (now i : ℕ) (pausing : Bool) → IsStep (change (is_switchable pausing i) (switch now pausing))
unfolding is_switchable
switch-IsStep now i pausing =
    change-IsStep (is_switchable pausing i) (switch now pausing) (λ r h. ground arith)
      (λ r h s. ground arith)
