-- ===== src/Worker/Keeps.antt =====
-- `process_once` keeps the queue's invariant on every path.
pub mod Once
use shadowglass_v35_runtime.Common.{
  ℕ, ◌≤◌, String, ◌≡◌, refl, ap, sym, ◌∙◌, Bool, true, false, Option, none, some, List, [], ◌∷◌,
  ◌++◌, arith, str_eq, if◌then◌else◌,
}
use shadowglass_v35_runtime.Common.Result.{
  Result, Exception, ok, err, lease_fence_rejected, runtime_error,
}
use shadowglass_v35_runtime.Queue.Row.{Queue, QueueJob}
use shadowglass_v35_runtime.Queue.Claim.{claim_job}
use shadowglass_v35_runtime.Queue.Lease.{
  LeaseWriteFence, extend_lease, complete_job, lease_write_fence,
}
use shadowglass_v35_runtime.Queue.Fail.{fail_job, dead_letter_job}
use shadowglass_v35_runtime.Queue.Invariant.Extends.{Keeps, Keeps-refl, Keeps-trans}
use shadowglass_v35_runtime.Queue.Invariant.Operations.{claim_job-Keeps}
use shadowglass_v35_runtime.Queue.Invariant.Failures.{
  extend_lease-Keeps, complete_job-Keeps, fail_job-Keeps, dead_letter_job-Keeps,
}
use shadowglass_v35_runtime.Database.Tables.{Db}
use shadowglass_v35_runtime.Database.Context.{JobContext, load_job_context}
use shadowglass_v35_runtime.Database.Keeps.{complete_discovery-Keeps, complete_scrape-Keeps}
use shadowglass_v35_runtime.Worker.Proc.{
  Turn, ScrapedPage, Script, done, beat, ScraperLike, StoredPage, StoreLike, World, Proc, continue,
  ◌>>=◌, yielded, pure, lift, settled, transact, rejoined, on_queue, query,
}

-- The queue's invariant is kept between the worlds before and after.
pub record Preserves {O A : Type 0} (m : Proc O A) : Type 0 where
  pub at : (w : World O) → Keeps w.db.queue (m w).1.db.queue

module _ {O A : Type 0} where
  pub Preserves-pure : (a : A) → Preserves {O = O} (pure a)
  Preserves-pure a = record { at = λ w. Keeps-refl w.db.queue }

  pub Preserves-lift : (r : Result A) → Preserves {O = O} (lift r)
  Preserves-lift r = record { at = λ w. Keeps-refl w.db.queue }

  -- Either branch of a test.
  pub Preserves-if :
      (b : Bool) (m n : Proc O A) → Preserves m → Preserves n → Preserves (if b then m else n)
  Preserves-if true m n km kn = km
  Preserves-if false m n km kn = kn

module _ {O A B : Type 0} where
  continue-Keeps :
      (r : Result A) (k : A → Proc O B) (w : World O)
      → ((a : A) → Preserves (k a))
      → Keeps w.db.queue (continue r k w).1.db.queue
  continue-Keeps (ok a) k w kk = (kk a).at w
  continue-Keeps (err e m) k w kk = Keeps-refl w.db.queue

  pub Preserves-bind :
      (m : Proc O A) (k : A → Proc O B)
      → Preserves m
      → ((a : A) → Preserves (k a))
      → Preserves (m >>= k)
  Preserves-bind m k km kk = record {
    at = λ w.
        Keeps-trans w.db.queue (m w).1.db.queue (continue (m w).0 k (m w).1).1.db.queue (km.at w)
          (continue-Keeps (m w).0 k (m w).1 kk);
  }

-- The other processes keep the invariant too, and the clock does not run backwards.
pub record IsFair (turns : ℕ → Turn) : Type 0 where
  pub others_keep : (n : ℕ) (db : Db) → Keeps db.queue ((turns n).others db).queue
  pub between_keep : (n : ℕ) (q : Queue) → Keeps q ((turns n).between q)
  pub in_order : (n : ℕ) → (turns n).readings.recorded ≤ (turns n).readings.buried

module _ {O A : Type 0} (turns : ℕ → Turn) (fair : IsFair turns) where
  settled-Keeps :
      (w : World O) (r : Result (A × Db))
      → ((a : A) (db : Db) → r ≡ ok (a, db) → Keeps w.db.queue db.queue)
      → Keeps w.db.queue (settled w r).1.db.queue
  settled-Keeps w (ok (a, db)) k = k a db refl
  settled-Keeps w (err e m) k = Keeps-refl w.db.queue

  pub Preserves-transact :
      (body : Turn → Db → Result (A × Db))
      → ((n : ℕ) (db : Db) (a : A) (db' : Db)
          → body (turns n) db ≡ ok (a, db')
          → Keeps db.queue db'.queue)
      → Preserves {O = O} (transact turns body)
  unfolding transact
  Preserves-transact body k = record {
    at = λ w.
        let w' = yielded turns w in
        let r = body (turns w.turn) w'.db in
        Keeps-trans w.db.queue w'.db.queue (settled w' r).1.db.queue (fair.others_keep w.turn w.db)
          (settled-Keeps w' r (λ a db e. k w.turn w'.db a db e));
  }

rejoined-Keeps :
    {A : Type 0} (r : Result (A × Queue)) (db : Db) {a : A} {db' : Db}
    → ((q' : Queue) → r ≡ ok (a, q') → Keeps db.queue q')
    → rejoined db r ≡ ok (a, db')
    → Keeps db.queue db'.queue
rejoined-Keeps {A = A} (ok (b, q')) db {a} {db'} k e =
    let first : b ≡ a = ground arith in
    let second : q' ≡ db'.queue = ground arith in
    rw (← second) (k q' (ap (λ (x : A). ok (x, q')) first))
rejoined-Keeps {A = A} (err f m) db k e = cc

-- A statement on the queue alone keeps the invariant where its result does.
pub on_queue-Keeps :
    {A : Type 0} (body : Queue → Result (A × Queue)) (db : Db) {a : A} {db' : Db}
    → ((q' : Queue) → body db.queue ≡ ok (a, q') → Keeps db.queue q')
    → on_queue body db ≡ ok (a, db')
    → Keeps db.queue db'.queue
on_queue-Keeps {A} body db {a} {db'} k e = rejoined-Keeps (body db.queue) db {a = a} {db' = db'} k e

pub query-Keeps :
    {A : Type 0} (r : Result A) (db : Db) {a : A} {db' : Db}
    → query r db ≡ ok (a, db')
    → Keeps db.queue db'.queue
query-Keeps (ok b) db {a} {db'} e =
    let same : db ≡ db' = ground arith in rw (← same) (Keeps-refl db.queue)
query-Keeps (err f m) db e = cc
