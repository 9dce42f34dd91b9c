-- ===== src/Canary/Finished.antt =====
-- The job of a canary run is over when the run ends, on every path.
use shadowglass_v35_runtime.Common.{
  ℕ, ◌+◌, ◌≡◌, ◌⊎◌, inl, inr, refl, String, Bool, true, false, Option, none, some,
}
use shadowglass_v35_runtime.Common.Result.{Result, Exception, ok, err}
use shadowglass_v35_runtime.Json.Dict.{distinct_keys, distinct_keys-IsDict}
use shadowglass_v35_runtime.ObjectStore.Identity.{canary_key}
use shadowglass_v35_runtime.Queue.Row.{Queue, State}
use shadowglass_v35_runtime.Queue.Enqueue.{enqueue_job}
use shadowglass_v35_runtime.Queue.Fail.{QueueJobState}
use shadowglass_v35_runtime.Queue.Invariant.Evolve.{is_final}
use shadowglass_v35_runtime.Queue.Invariant.Failures.{cancel_acceptance_canary-Keeps}
use shadowglass_v35_runtime.Queue.Invariant.Valid.{IsValid}
use shadowglass_v35_runtime.Queue.Invariant.Insertions.{enqueue_job-Keeps}
use shadowglass_v35_runtime.Database.Tables.{Db}
use shadowglass_v35_runtime.Worker.Proc.{
  World, Proc, continue, lift, ◌>>=◌, settled, transact, yielded, on_queue, rejoined,
}
use shadowglass_v35_runtime.Worker.Keeps.{IsFair, on_queue-Keeps}
use shadowglass_v35_runtime.Service.Retry.{settled-Answers}
use shadowglass_v35_runtime.Canary.{
  Release, CanaryResult, canary_job, require_target, require_timeout, require_poll, enqueue_canary,
  run_checked, identity_of, run_acceptance_canary, visited, on_tables, watch, is_completed,
  cancelling, cleanup, removing, judge, concluded, rounds, supervise,
}
use shadowglass_v35_runtime.Canary.Closed.{IsOver, IsOver-Keeps, cancel-IsOver, Observed}
use shadowglass_v35_runtime.Canary.Keeps.{
  on_tables-Preserves, watch-Preserves, judge-Preserves, removing-Keeps,
}
use shadowglass_v35_runtime.Canary.Watched.{Standing, Standing-Keeps, watch-Sees}

module _ {S : Type 0} (release : Release S) (fair : IsFair release.turns) (target identity : String)
    (i : ℕ) where
  open release use {turns, monotonic}

  abbrev Stands : World S → Type 0
  Stands = Standing release fair target identity i

  cancelling-IsOver :
      (w : World S)
      → Stands w
      → IsValid (cancelling release i identity w).db.queue
        × IsOver identity (cancelling release i identity w).db.queue
  unfolding on_tables transact
  cancelling-IsOver w s =
      let w' = yielded turns (visited release w) in
      let now = (turns w.turn).now in
      let (v, a) =
        Standing-Keeps release fair target identity i w w' (fair.others_keep w.turn w.db) s in
      (
        (cancel_acceptance_canary-Keeps now i identity w'.db.queue v).0,
        cancel-IsOver target identity now i w'.db.queue a,
      )

  removing-IsOver :
      (b : Bool) (x : Result CanaryResult × World S)
      → IsValid x.1.db.queue
      → IsOver identity x.1.db.queue
      → IsOver identity (removing release b identity x).1.db.queue
  removing-IsOver b x v over =
      IsOver-Keeps target identity x.1.db.queue (removing release b identity x).1.db.queue v
        (removing-Keeps release fair b identity x) over

  cleanup-IsOver :
      (b : Bool) (x : Result CanaryResult × World S)
      → Stands x.1
      → (b ≡ true → IsOver identity x.1.db.queue)
      → IsOver identity (cleanup release b i identity x).1.db.queue
  cleanup-IsOver true x s over = removing-IsOver true x s.0 (over refl)
  cleanup-IsOver false (r, w) s over =
      let (v, ended) = cancelling-IsOver w s in
      removing-IsOver false (r, cancelling release i identity w) v ended

  Observed-IsOver :
      (t : QueueJobState) (q : Queue)
      → is_completed t.state ≡ true
      → Observed target identity i t q
      → IsOver identity q
  Observed-IsOver t q done (r, found, _, state, _) = (r, found, rw state (final t.state done))
    where
      final : (s : State) → is_completed s ≡ true → is_final s ≡ true
      final State.completed e = refl
      final State.dead e = cc
      final State.pending e = cc
      final State.processing e = cc
      final State.paused e = cc

  concluded-IsOver :
      (x : Result (Option QueueJobState) × World S)
      → Stands x.1
      → ((t : QueueJobState) → x.0 ≡ ok (some t) → Observed target identity i t x.1.db.queue)
      → IsOver identity (concluded release i identity x).1.db.queue
  concluded-IsOver (err e m, w) s o = cleanup-IsOver false (err e m, w) s (λ e'. cc)
  concluded-IsOver (ok none, w) s o = cleanup-IsOver false (_, w) s (λ e'. cc)
  concluded-IsOver (ok (some t), w) s o =
      let judged = judge release i identity t w in
      let kept = (judge-Preserves release fair i identity t).at w in
      cleanup-IsOver (is_completed t.state) judged
        (Standing-Keeps release fair target identity i w judged.1 kept s)
        λ done.
          IsOver-Keeps target identity w.db.queue judged.1.db.queue s.0 kept
            (Observed-IsOver t w.db.queue done (o t refl))

  pub supervise-IsOver :
      (w : World S) → Stands w → IsOver identity (supervise release identity i w).1.db.queue
  unfolding supervise
  supervise-IsOver w s =
      let deadline = monotonic 0 + release.timeout in
      let x = watch release i deadline (rounds release) 1 w in
      concluded-IsOver x
        (Standing-Keeps release fair target identity i w x.1
          ((watch-Preserves release fair i deadline (rounds release) 1).at w) s)
        (watch-Sees release fair target identity i deadline (rounds release) 1 w s)

-- What holds where the first part of a sequence raises, and where it goes on.
pub sequenced :
    {O A B : Type 0} (P : Result B × World O → Type 0) (m : Proc O A) (k : A → Proc O B)
    (x : World O)
    → ((e : Exception) (s : String) → (m x).0 ≡ err e s → P (err e s, (m x).1))
    → ((a : A) → (m x).0 ≡ ok a → P (k a (m x).1))
    → P ((m >>= k) x)
sequenced {O} {A} P m k x = go (m x)
  where
    go :
        (r : Result A × World O)
        → ((e : Exception) (s : String) → r.0 ≡ err e s → P (err e s, r.1))
        → ((a : A) → r.0 ≡ ok a → P (k a r.1))
        → P (continue r.0 k r.1)
    go (ok a, x') failed passed = passed a refl
    go (err e s, x') failed passed = failed e s refl

module _ {S : Type 0} (release : Release S) where
  -- The run raised before it enqueued anything: the tables are as they were, or as the other
  -- processes left them.
  abbrev pub IsRefused : World S → Result CanaryResult × World S → Type 0
  IsRefused w x =
      (e : Exception) × (s : String) × (x.0 ≡ err e s)
      × ((x.1.db ≡ w.db) ⊎ (x.1.db ≡ (release.turns w.turn).others w.db))

module _ {S : Type 0} (release : Release S) (fair : IsFair release.turns) (identity : String) where
  open release use {turns, target_worker_id}

  pub enqueue_canary-Standing :
      (w : World S) {job : ℕ × Bool}
      → IsValid w.db.queue
      → (enqueue_canary release identity w).0 ≡ ok job
      → Standing release fair target_worker_id identity job.0 (enqueue_canary release identity w).1
  unfolding on_tables transact distinct_keys
  enqueue_canary-Standing w {job} v e =
      let work = canary_job target_worker_id identity in
      let w' = yielded turns (visited release w) in
      let now = (turns w.turn).now in
      let kept =
        on_tables-Preserves release fair (λ t. on_queue (enqueue_job t.now work))
          λ n db a db' h.
            on_queue-Keeps (enqueue_job (turns n).now work) db {a = a} {db' = db'}
              (λ q' g. enqueue_job-Keeps (turns n).now work db.queue {x = a} {q' = q'} g) h in
      (
        (kept.at w v).0,
        settled-Answers turns work (distinct_keys-IsDict work.payload refl) w' now
            (enqueue_job now work w'.db.queue) {job = job} refl e,
      )

  -- A transaction that raises leaves the tables to the others.
  settled-db :
      {A : Type 0} (x : World S) (r : Result (A × Db)) (e : Exception) (s : String)
      → (settled x r).0 ≡ err e s
      → (settled x r).1.db ≡ x.db
  settled-db x (ok a) e s h = cc
  settled-db x (err f m) e s h = refl

  enqueue_canary-db :
      (w : World S) (e : Exception) (s : String)
      → (enqueue_canary release identity w).0 ≡ err e s
      → (enqueue_canary release identity w).1.db ≡ (turns w.turn).others w.db
  unfolding on_tables transact
  enqueue_canary-db w e s h =
      let w' = yielded turns (visited release w) in
      let work = canary_job target_worker_id identity in
      settled-db w' (rejoined w'.db (enqueue_job (turns w.turn).now work w'.db.queue)) e s h

  abbrev Ends : World S → Result CanaryResult × World S → Type 0
  Ends w x = IsRefused release w x ⊎ IsOver identity x.1.db.queue

  run_checked-Ends : (w : World S) → IsValid w.db.queue → Ends w (run_checked release identity w)
  run_checked-Ends w v =
      let refused : (e : Exception) (s : String) → Ends w (err e s, w) =
        λ e s. inl (e, s, refl, inl refl) in
      sequenced (Ends w) (lift (require_target release)) _ w (λ e s _. refused e s)
        λ _ _.
          sequenced (Ends w) (lift (require_timeout release)) _ w (λ e s _. refused e s)
            λ _ _.
              sequenced (Ends w) (lift (require_poll release)) _ w (λ e s _. refused e s)
                λ _ _.
                  sequenced (Ends w) (lift (canary_key identity)) _ w (λ e s _. refused e s)
                    λ _ _.
                      sequenced (Ends w) (enqueue_canary release identity) _ w
                        (λ e s h. inl (e, s, refl, inr (enqueue_canary-db w e s h)))
                        λ job h. inr (
                          supervise-IsOver release fair target_worker_id identity job.0
                            (enqueue_canary release identity w).1
                            (enqueue_canary-Standing w {job = job} v h))

-- A run of the canary that raises before its job is enqueued leaves the tables as they are, but for
-- what the others did; once the job is enqueued it is completed or dead when the run ends: where it
-- answers, where it raises, at the timeout, whatever the consumer, the bucket and the other
-- processes do.
pub run_acceptance_canary-IsOver :
    {S : Type 0} (release : Release S)
    → (fair : IsFair release.turns) → (canary_id : Option String) (fresh : String) (w : World S)
    → IsValid w.db.queue
    → IsRefused release w (run_acceptance_canary release canary_id fresh w)
      ⊎ IsOver
          (identity_of release canary_id fresh)
          (run_acceptance_canary release canary_id fresh w).1.db.queue
unfolding run_acceptance_canary
run_acceptance_canary-IsOver release fair canary_id fresh w v =
    run_checked-Ends release fair (identity_of release canary_id fresh) w v
