-- ===== src/Canary/Watched.antt =====
-- What the polling loop of `run_acceptance_canary` sees of its job.
use shadowglass_v35_runtime.Common.{
  ℕ, zero, suc, ◌+◌, ◌≡◌, inl, inr, refl, String, Option, some, ltb, Bool-cases, arith,
}
use shadowglass_v35_runtime.Common.Result.{Result, ok, err}
use shadowglass_v35_runtime.Queue.Row.{State}
use shadowglass_v35_runtime.Queue.Fail.{QueueJobState, get_queue_job_state}
use shadowglass_v35_runtime.Queue.Invariant.Valid.{IsValid}
use shadowglass_v35_runtime.Queue.Invariant.Extends.{Keeps}
use shadowglass_v35_runtime.Queue.Idempotency.{Answers, Answers-Extends}
use shadowglass_v35_runtime.Worker.Proc.{World, Proc, settled, query, transact, yielded}
use shadowglass_v35_runtime.Worker.Keeps.{IsFair}
use shadowglass_v35_runtime.Service.Retry.{bind-ok}
use shadowglass_v35_runtime.Canary.{Release, canary_job, visited, on_tables, observe, seen, watch}
use shadowglass_v35_runtime.Canary.Closed.{Observed, get_queue_job_state-Observed}
use shadowglass_v35_runtime.Canary.Keeps.{observe-Preserves}

module _ {S : Type 0} where
  settled-query :
      {A : Type 0} (w : World S) (r : Result A) {a : A}
      → (settled w (query r w.db)).0 ≡ ok a
      → (r ≡ ok a) × ((settled w (query r w.db)).1 ≡ w)
  settled-query w (ok b) e = (e, refl)
  settled-query w (err x m) e = absurd (cc)

module _ {S : Type 0} (release : Release S) (fair : IsFair release.turns) (target identity : String)
    (i : ℕ) where
  open release use {turns, monotonic}

  -- The canary's job stands in a valid queue.
  abbrev pub Standing : World S → Type 0
  Standing w = IsValid w.db.queue × Answers (canary_job target identity) i w.db.queue.rows

  pub Standing-Keeps : (w w' : World S) → Keeps w.db.queue w'.db.queue → Standing w → Standing w'
  Standing-Keeps w w' k (v, a) =
      let (v', grown) = k v in
      (v', Answers-Extends (canary_job target identity) i w.db.queue.rows w'.db.queue.rows a grown)

  observe-Observed :
      (w : World S) {t : QueueJobState}
      → Standing w
      → (observe release i w).0 ≡ ok t
      → Observed target identity i t (observe release i w).1.db.queue
  unfolding on_tables transact
  observe-Observed w {t} s e =
      let (v, a) =
        Standing-Keeps w (observe release i w).1 ((observe-Preserves release fair i).at w) s in
      let w' = yielded turns (visited release w) in
      let (got, same) = settled-query w' (get_queue_job_state i w'.db.queue) {a = t} e in
      rw same (
        get_queue_job_state-Observed target identity i w'.db.queue {t = t} (rw same at v)
          (rw same at a) got)

  abbrev pub Sees : Proc S (Option QueueJobState) → World S → Type 0
  Sees m w =
      (t : QueueJobState) → (m w).0 ≡ ok (some t) → Observed target identity i t (m w).1.db.queue

  seen-Sees :
      (s : State) (state : QueueJobState) (rest : Proc S (Option QueueJobState)) (w : World S)
      → Observed target identity i state w.db.queue
      → Sees rest w
      → Sees (seen release s state rest) w
  seen-Sees State.completed state rest w o k t e =
      let same : state ≡ t = ground (arith, e) in rw (← same) o
  seen-Sees State.dead state rest w o k t e =
      let same : state ≡ t = ground (arith, e) in rw (← same) o
  seen-Sees State.pending state rest w o k t e = k t e
  seen-Sees State.processing state rest w o k t e = k t e
  seen-Sees State.paused state rest w o k t e = absurd (cc)

  -- What the loop answers with is what the row is when the loop ends.
  pub watch-Sees :
      (deadline left k : ℕ) (w : World S) → Standing w → Sees (watch release i deadline left k) w
  unfolding watch
  watch-Sees deadline zero k w s t e = absurd (cc)
  watch-Sees deadline (suc left) k w s t e = elim (Bool-cases (ltb (monotonic k) deadline)) [
    | inl before ↦
        let rest = watch release i deadline left (k + 1) in
        let e' = rw (before, watch) at e in
        let (state, got, whole) =
          bind-ok (observe release i) (λ state. seen release state.state state rest) w {b = some t}
            e' in
        let w' = (observe release i w).1 in
        let s' = Standing-Keeps w w' ((observe-Preserves release fair i).at w) s in
        rw (before, whole)
          (seen-Sees state.state state rest w' (observe-Observed w {t = state} s got)
            (watch-Sees deadline left (k + 1) w' s') t (rw whole at e'))
    | inr over ↦ absurd (ground (arith, over, e))
  ]
