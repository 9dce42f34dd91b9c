-- ===== src/Database/Keeps.antt =====
-- The larger transactions keep the queue's invariant.
use shadowglass_v35_runtime.Common.{ℕ, zero, suc, ◌+◌, ◌≡◌, refl, List, [], ◌∷◌, arith}
use shadowglass_v35_runtime.Common.Result.{ok}
use shadowglass_v35_runtime.Queue.Row.{Queue, QueueJob}
use shadowglass_v35_runtime.Queue.Lease.{update_owned, acknowledge}
use shadowglass_v35_runtime.Queue.Enqueue.{insert_work}
use shadowglass_v35_runtime.Queue.Invariant.Extends.{Keeps, Keeps-refl, Keeps-trans}
use shadowglass_v35_runtime.Queue.Invariant.Steps.{acknowledge-IsStep}
use shadowglass_v35_runtime.Queue.Invariant.Operations.{update_owned-Keeps}
use shadowglass_v35_runtime.Queue.Invariant.Insertions.{insert_work-Keeps}
use shadowglass_v35_runtime.Database.Tables.{Db}
use shadowglass_v35_runtime.Database.Context.{JobContext}
use shadowglass_v35_runtime.Database.Discovery.{page_work, queue_pages, complete_discovery}
use shadowglass_v35_runtime.Database.Scrape.{
  PersistedPage, store_pages, store_page, complete_scrape,
}

pub queue_pages-Keeps :
    (now job_id : ℕ) (c : JobContext) (page left : ℕ) (q : Queue)
    → Keeps q (queue_pages now job_id c page left q).1
unfolding queue_pages
queue_pages-Keeps now job_id c page zero q = Keeps-refl q
queue_pages-Keeps now job_id c page (suc left) q =
    let w = page_work job_id c page in
    let q' = (insert_work now w q).1 in
    Keeps-trans q q' (queue_pages now job_id c (page + 1) left q').1
      (insert_work-Keeps now w q (omega arith, omega arith))
      (queue_pages-Keeps now job_id c (page + 1) left q')

pub acknowledged-Keeps :
    (now i t : ℕ) (q : Queue) → Keeps q (update_owned now i t (acknowledge now) q).1
acknowledged-Keeps now i t q =
    update_owned-Keeps now i t (acknowledge now) q (acknowledge-IsStep now i t)

pub complete_discovery-Keeps :
    (now acked : ℕ) (job : QueueJob) (c : JobContext) (total page_count : ℕ) (db : Db) {n : ℕ}
    {db' : Db}
    → complete_discovery now acked job c total page_count db ≡ ok (n, db')
    → Keeps db.queue db'.queue
unfolding complete_discovery
complete_discovery-Keeps now acked job c total page_count db {n} {db'} e =
    let paged = (queue_pages now job.id c 0 page_count db.queue).1 in
    let acked_queue = (update_owned acked job.id job.lease_token (acknowledge acked) paged).1 in
    let same : acked_queue ≡ db'.queue = ground arith in
    rw (← same) (
      Keeps-trans db.queue paged acked_queue (queue_pages-Keeps now job.id c 0 page_count db.queue)
        (acknowledged-Keeps acked job.id job.lease_token paged))

pub store_pages-queue :
    (now : ℕ) (c : JobContext) (pages : List PersistedPage) (db : Db)
    → (store_pages now c pages db).queue ≡ db.queue
unfolding store_pages
store_pages-queue now c [] db = refl
store_pages-queue now c (p ∷ ps) db = store_pages-queue now c ps (store_page now c p db)

pub complete_scrape-Keeps :
    (now acked : ℕ) (job : QueueJob) (c : JobContext) (pages : List PersistedPage) (db : Db) {n : ℕ}
    {db' : Db}
    → complete_scrape now acked job c pages db ≡ ok (n, db')
    → Keeps db.queue db'.queue
unfolding complete_scrape
complete_scrape-Keeps now acked job c pages db {n} {db'} e =
    let acked_queue = (update_owned acked job.id job.lease_token (acknowledge acked) db.queue).1 in
    let kept = store_pages-queue now c pages db in
    let same : acked_queue ≡ db'.queue = ground (arith, kept) in
    rw (← same) (acknowledged-Keeps acked job.id job.lease_token db.queue)
