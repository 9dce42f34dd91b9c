-- ===== src/Worker/Outcome.antt =====
-- What the statuses of `process_once` say of the job.
pub mod Finished
pub mod Lost
use shadowglass_v35_runtime.Common.{
  ℕ, suc, ◌+◌, ◌≤◌, String, ◌≡◌, ◌≢◌, refl, ap, sym, ◌∙◌, Bool, true, false, not, ◌&&◌, ◌||◌,
  Option, none, some, List, [], ◌∷◌, map, arith, ==_iff, ◌==◌, any, count, str_eq, Bool-cases, inl,
  inr, ◌⊎◌, if◌then◌else◌,
}
use Prim.Native.String
use shadowglass_v35_runtime.Common.Result.{
  Result, Exception, ok, err, lookup_error, lease_fence_rejected, runtime_error,
}
use shadowglass_v35_runtime.Queue.Row.{Row, Queue, QueueJob, State}
use shadowglass_v35_runtime.Queue.Table.{change, update_where}
use shadowglass_v35_runtime.Queue.Lease.{owned_by, update_owned, acknowledge, complete_job}
use shadowglass_v35_runtime.Queue.Fail.{fail_job}
use shadowglass_v35_runtime.Queue.Invariant.Valid.{IsValid}
use shadowglass_v35_runtime.Queue.Invariant.Select.{In}
use shadowglass_v35_runtime.Queue.Ownership.Stale.{IsGone, gone_powerless, owned_by-NamesId}
use shadowglass_v35_runtime.Database.Tables.{Db}
use shadowglass_v35_runtime.Database.Context.{JobContext}
use shadowglass_v35_runtime.Database.Discovery.{queue_pages, complete_discovery}
use shadowglass_v35_runtime.Database.Scrape.{PersistedPage, store_pages, complete_scrape}
use shadowglass_v35_runtime.Worker.Proc.{
  Env, Turn, ScrapedPage, Discovery, World, Proc, continue, ◌>>=◌, yielded, pure, lift, settled,
  transact, on_queue, rejoined,
}
use shadowglass_v35_runtime.Worker.Process.{
  class_name, Status, dead, completed, stale, failed, idle, Prepared, canary_job, context_job,
  remote, fenced, persist_pages, work, work_canary, fail_with, recovered_from, reject, attempt,
  dispatch, prepare, handle_job, handle, process_once,
}

-- The row of the job is completed.
abbrev pub is_done : ℕ → Row → Bool
is_done i r = r.id == i && (elim r.state [ State.completed ↦ true | _ ↦ false ])

abbrev pub JobDone : ℕ → Queue → Type 0
JobDone i q = any (is_done i) q.rows ≡ true

acknowledged_row :
    (now i t : ℕ) (r : Row) → owned_by now i t r ≡ true → is_done i (acknowledge now r) ≡ true
unfolding owned_by
acknowledged_row now i t r h = ground arith

acknowledged_some :
    (now i t : ℕ) (rows : List Row)
    → count (owned_by now i t) rows ≡ 1
    → any (is_done i) (update_where (owned_by now i t) (acknowledge now) rows) ≡ true
unfolding update_where
acknowledged_some now i t [] e = absurd (omega arith)
acknowledged_some now i t (r ∷ rows) e = elim (Bool-cases (owned_by now i t r)) [
  | inl mine ↦ let here = acknowledged_row now i t r mine in ground (arith, mine, here)
  | inr passed ↦
      let rest = acknowledged_some now i t rows (ground (arith, passed)) in
      ground (arith, passed, rest)
]

-- An acknowledgement that answers true has completed the row.
pub update_owned-JobDone :
    (now i t : ℕ) (q : Queue)
    → (update_owned now i t (acknowledge now) q).0 ≡ true
    → JobDone i (update_owned now i t (acknowledge now) q).1
unfolding update_owned
update_owned-JobDone now i t q e = acknowledged_some now i t q.rows (ground arith)

pub complete_discovery-JobDone :
    (now acked : ℕ) (job : QueueJob) (c : JobContext) (total pages : ℕ) (db : Db) {n : ℕ} {db' : Db}
    → complete_discovery now acked job c total pages db ≡ ok (n, db')
    → JobDone job.id db'.queue
unfolding complete_discovery
complete_discovery-JobDone now acked job c total pages db {n} {db'} e =
    let paged = (queue_pages now job.id c 0 pages db.queue).1 in
    let r = update_owned acked job.id job.lease_token (acknowledge acked) paged in
    let owned : r.0 ≡ true = ground arith in
    let same : r.1 ≡ db'.queue = ground arith in
    rw (← same) (update_owned-JobDone acked job.id job.lease_token paged owned)

pub complete_scrape-JobDone :
    (now acked : ℕ) (job : QueueJob) (c : JobContext) (pages : List PersistedPage) (db : Db) {n : ℕ}
    {db' : Db}
    → complete_scrape now acked job c pages db ≡ ok (n, db')
    → JobDone job.id db'.queue
unfolding complete_scrape
complete_scrape-JobDone now acked job c pages db {n} {db'} e =
    let stored = store_pages now c pages db in
    let r = update_owned acked job.id job.lease_token (acknowledge acked) stored.queue in
    let owned : r.0 ≡ true = ground arith in
    let same : r.1 ≡ db'.queue = ground arith in
    rw (← same) (update_owned-JobDone acked job.id job.lease_token stored.queue owned)

-- A procedure that answers `completed` leaves the job completed.
pub record Completes {O : Type 0} (i : ℕ) (m : Proc O Status) : Type 0 where
  pub at : (w : World O) → (m w).0 ≡ ok completed → JobDone i (m w).1.db.queue

module _ {O A : Type 0} (i : ℕ) where
  continue-Completes :
      (r : Result A) (k : A → Proc O Status) (w : World O)
      → ((a : A) → Completes i (k a))
      → (continue r k w).0 ≡ ok completed
      → JobDone i (continue r k w).1.db.queue
  continue-Completes (ok a) k w kk e = (kk a).at w e
  continue-Completes (err f m) k w kk e = absurd (cc)

  pub Completes-bind :
      (m : Proc O A) (k : A → Proc O Status) → ((a : A) → Completes i (k a)) → Completes i (m >>= k)
  Completes-bind m k kk = record { at = λ w e. continue-Completes (m w).0 k (m w).1 kk e }

  -- The last transaction, whose success completes the job.
  settled-Completes :
      (w : World O) (r : Result (A × Db))
      → ((a : A) (db : Db) → r ≡ ok (a, db) → JobDone i db.queue)
      → (continue (settled w r).0 (λ (_ : A). pure {O = O} completed) (settled w r).1).0
        ≡ ok completed
      → JobDone i
          (continue (settled w r).0 (λ (_ : A). pure {O = O} completed) (settled w r).1).1.db.queue
  settled-Completes w (ok (a, db)) k e = k a db refl
  settled-Completes w (err f m) k e = absurd (cc)

  pub Completes-transact :
      (turns : ℕ → Turn) (body : Turn → Db → Result (A × Db))
      → ((n : ℕ) (db : Db) (a : A) (db' : Db)
          → body (turns n) db ≡ ok (a, db')
          → JobDone i db'.queue)
      → Completes {O = O} i (transact turns body >>= λ _. pure completed)
  unfolding transact
  Completes-transact turns body k = record {
    at = λ w e.
        settled-Completes (yielded turns w) (body (turns w.turn) (yielded turns w).db)
          (λ a db h. k w.turn (yielded turns w).db a db h) e;
  }
