-- ===== src/Canary/Polling.antt =====
-- The polling loop of `run_acceptance_canary` ends at its deadline.
use native.Mathlib.Omega.{div_fact, mod_fact}
use shadowglass_v35_runtime.Common.{
  ℕ, zero, suc, ◌+◌, ◌*◌, ◌/◌, ◌≤◌, ◌≡◌, refl, inl, inr, false, Option, ltb, Bool-cases, arith,
}
use shadowglass_v35_runtime.Common.Result.{Result, ok, err}
use shadowglass_v35_runtime.Queue.Row.{State}
use shadowglass_v35_runtime.Queue.Fail.{QueueJobState}
use shadowglass_v35_runtime.Worker.Proc.{World, Proc, continue}
use shadowglass_v35_runtime.Canary.{Release, seen, observe, watch, rounds}

-- `time.monotonic` does not go back, and a pause takes at least as long as it was asked to.
pub record IsClock {S : Type 0} (release : Release S) : Type 0 where
  pub forward : release.monotonic 0 ≤ release.monotonic 1
  pub pauses : (k : ℕ) → release.monotonic (k + 1) + release.poll ≤ release.monotonic (k + 2)

module _ {S : Type 0} (release : Release S) (clock : IsClock release) (job_id deadline : ℕ) where
  open release use {timeout, poll, monotonic}

  seen-ap :
      (s : State) (state : QueueJobState) (m n : Proc S (Option QueueJobState)) (w : World S)
      → m w ≡ n w
      → seen release s state m w ≡ seen release s state n w
  seen-ap State.completed state m n w e = refl
  seen-ap State.dead state m n w e = refl
  seen-ap State.pending state m n w e = e
  seen-ap State.processing state m n w e = e
  seen-ap State.paused state m n w e = refl

  continue-ap :
      (r : Result QueueJobState) (m n : Proc S (Option QueueJobState)) (w : World S)
      → m w ≡ n w
      → continue r (λ state. seen release state.state state m) w
        ≡ continue r (λ state. seen release state.state state n) w
  continue-ap (ok state) m n w e = seen-ap state.state state m n w e
  continue-ap (err x s) m n w e = refl

  -- Where the deadline comes within the rounds that are left, more of them change nothing.
  watch-from :
      (left more k : ℕ) (w : World S)
      → left ≤ more
      → deadline ≤ monotonic (k + 1) + left * poll
      → watch release job_id deadline more (k + 1) w ≡ watch release job_id deadline left (k + 1) w
  unfolding watch
  watch-from zero zero k w h late = refl
  watch-from zero (suc more) k w h late =
      let over : ltb (monotonic (k + 1)) deadline ≡ false = ground arith in rw over refl
  watch-from (suc left) zero k w h late = absurd (omega arith)
  watch-from (suc left) (suc more) k w h late =
      elim (Bool-cases (ltb (monotonic (k + 1)) deadline)) [
        | inl before ↦
            let (r, w') = observe release job_id w in
            let same : k + 1 + 1 ≡ k + 2 = omega arith in
            let later : deadline ≤ monotonic (k + 1 + 1) + left * poll =
              rw same (ground (arith, clock.pauses k)) in
            rw before (
              continue-ap r (watch release job_id deadline more (k + 1 + 1))
                (watch release job_id deadline left (k + 1 + 1)) w'
                (watch-from left more (k + 1) w' (omega arith) later))
        | inr over ↦ rw over refl
      ]

rounds_reach : (timeout poll : ℕ) → 1 ≤ poll → timeout ≤ (timeout / poll + 1) * poll
rounds_reach timeout zero h = absurd (omega arith)
rounds_reach timeout (suc n) h =
    let whole = div_fact timeout n in let part = mod_fact timeout n in ground arith

-- With a clock that does not go back and pauses that last, the polling loop has all the rounds that
-- it takes to reach its deadline: any greater number of them gives the same run.
pub watch_enough :
    {S : Type 0} (release : Release S)
    → IsClock release
    → 1 ≤ release.poll
    → (job_id more : ℕ) (w : World S)
    → watch release job_id (release.monotonic 0 + release.timeout) (rounds release + more) 1 w
      ≡ watch release job_id (release.monotonic 0 + release.timeout) (rounds release) 1 w
watch_enough release clock positive job_id more w =
    let reaches = rounds_reach release.timeout release.poll positive in
    let forward = clock.forward in
    let reached : release.monotonic 0 + release.timeout
        ≤ release.monotonic 1 + rounds release * release.poll =
      omega arith in
    watch-from release clock job_id (release.monotonic 0 + release.timeout) (rounds release)
      (rounds release + more) 0 w (omega arith) reached
