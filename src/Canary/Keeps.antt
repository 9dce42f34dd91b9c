-- ===== src/Canary/Keeps.antt =====
-- The steps of `run_acceptance_canary` keep the queue's invariant.
use shadowglass_v35_runtime.Common.{
  ℕ, zero, suc, ◌+◌, ◌≡◌, refl, String, Bool, true, false, Option, none, some, ltb,
}
use shadowglass_v35_runtime.Common.Result.{Result, ok, err}
use shadowglass_v35_runtime.Queue.Row.{State}
use shadowglass_v35_runtime.Queue.Fail.{QueueJobState, get_queue_job_state}
use shadowglass_v35_runtime.Queue.Invariant.Extends.{Keeps}
use shadowglass_v35_runtime.Database.Tables.{Db}
use shadowglass_v35_runtime.Worker.Proc.{Turn, World, Proc, lift, query}
use shadowglass_v35_runtime.Worker.Keeps.{
  Preserves, Preserves-pure, Preserves-lift, Preserves-if, Preserves-bind, IsFair,
  Preserves-transact, query-Keeps,
}
use shadowglass_v35_runtime.ObjectStore.Canary.{verify_canary, remove_canary}
use shadowglass_v35_runtime.Canary.{
  Release, CanaryResult, visited, on_tables, on_bucket, observe, seen, watch, judge, require_done,
  require_single, verify, result_of, answered, removing,
}

module _ {S : Type 0} (release : Release S) (fair : IsFair release.turns) where
  open release use {turns, client, sha256, monotonic}

  pub on_tables-Preserves :
      {A : Type 0} (body : Turn → Db → Result (A × Db))
      → ((n : ℕ) (db : Db) (a : A) (db' : Db)
          → body (turns n) db ≡ ok (a, db')
          → Keeps db.queue db'.queue)
      → Preserves (on_tables release body)
  unfolding on_tables
  on_tables-Preserves body k = record {
    at = λ w. (Preserves-transact turns fair body k).at (visited release w);
  }

  pub on_bucket-Preserves :
      {A : Type 0} (call : S → Result A × S) → Preserves (on_bucket release call)
  unfolding on_bucket
  on_bucket-Preserves call = record { at = λ w. fair.others_keep w.turn w.db }

  pub observe-Preserves : (job_id : ℕ) → Preserves (observe release job_id)
  observe-Preserves job_id =
      on_tables-Preserves (λ _ db. query (get_queue_job_state job_id db.queue) db)
        (λ n db a db' e. query-Keeps (get_queue_job_state job_id db.queue) db {a = a} {db' = db'} e)

  seen-Preserves :
      (s : State) (state : QueueJobState) (rest : Proc S (Option QueueJobState))
      → Preserves rest
      → Preserves (seen release s state rest)
  seen-Preserves State.completed state rest k = Preserves-pure (some state)
  seen-Preserves State.dead state rest k = Preserves-pure (some state)
  seen-Preserves State.pending state rest k = k
  seen-Preserves State.processing state rest k = k
  seen-Preserves State.paused state rest k = Preserves-lift _

  pub watch-Preserves :
      (job_id deadline left k : ℕ) → Preserves (watch release job_id deadline left k)
  unfolding watch
  watch-Preserves job_id deadline zero k = Preserves-pure none
  watch-Preserves job_id deadline (suc left) k =
      Preserves-if (ltb (monotonic k) deadline) _ _
        (Preserves-bind (observe release job_id) _ (observe-Preserves job_id) λ state.
          seen-Preserves state.state state (watch release job_id deadline left (k + 1))
            (watch-Preserves job_id deadline left (k + 1)))
        (Preserves-pure none)

  pub judge-Preserves :
      (job_id : ℕ) (identity : String) (terminal : QueueJobState)
      → Preserves (judge release job_id identity terminal)
  judge-Preserves job_id identity terminal =
      Preserves-bind (lift (require_done release terminal)) _ (Preserves-lift _) λ _.
        Preserves-bind (lift (require_single release terminal)) _ (Preserves-lift _) λ _.
          Preserves-bind (verify release identity) _
            (on_bucket-Preserves (λ s. (verify_canary client sha256 identity s, s)))
            λ stored. Preserves-pure (result_of release job_id identity terminal stored)

  -- The answer does not depend on the world.
  pub answered-world :
      (b : Bool) (r : Result CanaryResult) (x : Result (Unit {0}) × World S)
      → (answered release b r x).1 ≡ x.1
  answered-world b r (ok _, w) = refl
  answered-world true r (err e m, w) = refl
  answered-world false r (err e m, w) = refl

  pub removing-Keeps :
      (b : Bool) (identity : String) (x : Result CanaryResult × World S)
      → Keeps x.1.db.queue (removing release b identity x).1.db.queue
  removing-Keeps b identity (r, w) =
      rw (answered-world b r (on_bucket release (remove_canary client identity) w))
        ((on_bucket-Preserves (remove_canary client identity)).at w)
