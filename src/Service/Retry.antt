-- ===== src/Service/Retry.antt =====
-- Retries of service.py's calls, with other processes' transactions between its statements.
pub mod Each
pub mod CountyJobs
use shadowglass_v35_runtime.Common.{
  ℕ, zero, suc, ◌+◌, ◌≤◌, String, ◌≡◌, ◌≢◌, refl, sym, ap, ◌∙◌, Bool, true, false, not, Option,
  none, some, List, [], ◌∷◌, map, arith, length, coalesce, eq_iff, str_eq,
}
use Prim.Native.String
use shadowglass_v35_runtime.Common.Int.{ℤ, pos}
use shadowglass_v35_runtime.Common.Sorted.{sort_by}
use shadowglass_v35_runtime.Common.Text.{is_empty, strip}
use shadowglass_v35_runtime.Common.Result.{Result, ok, err}
use shadowglass_v35_runtime.Json.Dict.{IsDict, distinct_keys, distinct_keys-IsDict}
use shadowglass_v35_runtime.Queue.Row.{Row, Queue}
use shadowglass_v35_runtime.Queue.Enqueue.{Work, enqueue_job}
use shadowglass_v35_runtime.Queue.Invariant.Valid.{IsValid}
use shadowglass_v35_runtime.Queue.Invariant.Extends.{Extends, Keeps, Keeps-trans}
use shadowglass_v35_runtime.Queue.Invariant.Insertions.{enqueue_job-Keeps}
use shadowglass_v35_runtime.Queue.Idempotency.{
  Answers, Answers-Extends, enqueue_job-Answers, replay_answered, accepted,
}
use shadowglass_v35_runtime.Database.Tables.{County, Instrument, Db}
use shadowglass_v35_runtime.Database.Discovery.{job_payload}
use shadowglass_v35_runtime.Worker.Proc.{
  Turn, World, Proc, continue, ◌>>=◌, yielded, pure, settled, rejoined, transact, on_queue,
}
use shadowglass_v35_runtime.Worker.Keeps.{
  Preserves, Preserves-pure, Preserves-bind, IsFair, Preserves-transact, on_queue-Keeps,
}
use shadowglass_v35_runtime.Service.Jobs.{
  discover_work, instrument_key, Service, enqueue, enqueue_each, enqueue_county, resolve_county,
}

-- A successful sequence had a successful first part.
pub bind-ok :
    {O A B : Type 0} (m : Proc O A) (k : A → Proc O B) (x : World O) {b : B}
    → ((m >>= k) x).0 ≡ ok b
    → (a : A) × ((m x).0 ≡ ok a) × ((m >>= k) x ≡ k a (m x).1)
bind-ok {O} {A} {B} m k x {b} e = go (m x) e
  where
    go :
        (r : Result A × World O)
        → (continue r.0 k r.1).0 ≡ ok b
        → (a : A) × (r.0 ≡ ok a) × (continue r.0 k r.1 ≡ k a r.1)
    go (ok a, x') e = (a, refl, refl)
    go (err f m, x') e = absurd (cc)

-- The job that an earlier call answered with, as a replay.
abbrev pub again : ℕ × Bool → ℕ × Bool
again (id, created) = (id, false)

module _ {O : Type 0} (turns : ℕ → Turn) where
  -- The world after so many turns of the other processes.
  abbrev pub after : ℕ → World O → World O
  after zero x = x
  after (suc n) x = after n (yielded turns x)

  module _ (w : Work) (d : IsDict w.payload) where
    pub settled-Answers :
        (x : World O) (now : ℕ) (r : Result ((ℕ × Bool) × Queue)) {job : ℕ × Bool}
        → enqueue_job now w x.db.queue ≡ r
        → (settled x (rejoined x.db r)).0 ≡ ok job
        → Answers w job.0 (settled x (rejoined x.db r)).1.db.queue.rows
    settled-Answers x now (ok ((i, b), q')) {job} e h =
        let found = enqueue_job-Answers w now x.db.queue {i = i} {b = b} {q' = q'} d e in
        let same : i ≡ job.0 = ground (arith, h) in rw (← same) found
    settled-Answers x now (err f m) e h = absurd (cc)

    settled-accepted :
        (x : World O) (now : ℕ) (r : Result ((ℕ × Bool) × Queue)) {job : ℕ × Bool}
        → enqueue_job now w x.db.queue ≡ r
        → (settled x (rejoined x.db r)).0 ≡ ok job
        → is_empty (strip w.idempotency_key) ≡ false
    settled-accepted x now (ok ((i, b), q')) {job} e h =
        (accepted w now x.db.queue {x = (i, b)} {q' = q'} e).1
    settled-accepted x now (err f m) e h = absurd (cc)

pub dict :
    (kind county instrument platform : String) (c i a b : ℕ)
    → IsDict (job_payload kind county c instrument i a b platform)
unfolding distinct_keys
dict kind county instrument platform c i a b =
    distinct_keys-IsDict (job_payload kind county c instrument i a b platform) refl

module _ {O : Type 0} (s : Service) (fair : IsFair s.turns) where
  pub enqueue-Preserves : (w : Work) → Preserves {O = O} (enqueue s w)
  enqueue-Preserves w =
      Preserves-transact s.turns fair (λ t. on_queue (enqueue_job t.now w))
        (λ n db a db' e.
          on_queue-Keeps (enqueue_job (s.turns n).now w) db {a = a} {db' = db'}
            (λ q' h. enqueue_job-Keeps (s.turns n).now w db.queue {x = a} {q' = q'} h) e)

  module _ (w : Work) (d : IsDict w.payload) where
    pub enqueue-Answers :
        (x : World O) {job : ℕ × Bool}
        → (enqueue s w x).0 ≡ ok job
        → Answers w job.0 (enqueue s w x).1.db.queue.rows
          × (is_empty (strip w.idempotency_key) ≡ false)
    unfolding transact
    enqueue-Answers x {job} e =
        let x' = yielded s.turns x in
        let now = (s.turns x.turn).now in
        (
          settled-Answers s.turns w d x' now (enqueue_job now w x'.db.queue) {job = job} refl e,
          settled-accepted s.turns w d x' now (enqueue_job now w x'.db.queue) {job = job} refl e,
        )

    pub enqueue-again :
        (x : World O) (i : ℕ)
        → IsValid x.db.queue
        → Answers w i x.db.queue.rows
        → is_empty (strip w.job_kind) ≡ false
        → is_empty (strip w.idempotency_key) ≡ false
        → 1 ≤ w.max_attempts
        → w.max_attempts ≤ 100
        → enqueue s w x ≡ (ok (i, false), yielded s.turns x)
    unfolding transact
    enqueue-again x i v a kind key lo hi =
        let x' = yielded s.turns x in
        let grown = (fair.others_keep x.turn x.db v).1 in
        let found = Answers-Extends w i x.db.queue.rows x'.db.queue.rows a grown in
        let same = replay_answered w (s.turns x.turn).now i x'.db.queue found kind key lo hi in
        rw same refl
