-- ===== src/App/Routes/Preview.antt =====
-- app.py: a preview of `/scrape/multi` counts the jobs that the call itself would queue.
use shadowglass_v35_runtime.Common.{
  ℕ, suc, ◌+◌, ◌*◌, String, ◌≡◌, refl, sym, ap, ◌∙◌, Bool, true, false, List, [], ◌∷◌, ◌++◌, length,
  length-append, arith,
}
use shadowglass_v35_runtime.Common.Int.{ℤ, pos}
use shadowglass_v35_runtime.Common.Sorted.{sort_by, length-sort_by}
use shadowglass_v35_runtime.Common.Result.{Result, ok, err}
use shadowglass_v35_runtime.Queue.Row.{Queue}
use shadowglass_v35_runtime.Queue.Enqueue.{Work, enqueue_job}
use shadowglass_v35_runtime.Database.Tables.{County, Instrument}
use shadowglass_v35_runtime.Worker.Proc.{World, ◌>>=◌, yielded, pure, settled, rejoined, transact}
use shadowglass_v35_runtime.Worker.Keeps.{IsFair}
use shadowglass_v35_runtime.Service.Jobs.{Service, enqueue, enqueue_each, enqueue_county}
use shadowglass_v35_runtime.Service.Retry.{bind-ok}
use shadowglass_v35_runtime.Service.Retry.Each.{job_of, each-ok}
use shadowglass_v35_runtime.Service.Retry.CountyJobs.{IsStable, county-accepted, county-found}
use shadowglass_v35_runtime.Requests.{validate_idempotency_key}
use shadowglass_v35_runtime.App.Routes.{
  previewed, queued, Headers, dry_run, created_count, county_key, with_key, enqueue_counties,
  scrape_multi,
}

product_step : (k l a b : ℕ) → a ≡ l → b ≡ k * l → a + b ≡ suc k * l
product_step k l a b e f = grind (arith, e, f)

module _ {O : Type 0} (s : Service) (fair : IsFair s.turns) (stable : IsStable s.turns) where
  settled-instruments :
      (x : World O) (r : Result ((ℕ × Bool) × Queue))
      → (settled x (rejoined x.db r)).1.db.instruments ≡ x.db.instruments
  settled-instruments x (ok (a, q)) = refl
  settled-instruments x (err e m) = refl

  enqueue-instruments :
      (w : Work) (x : World O) → (enqueue s w x).1.db.instruments ≡ x.db.instruments
  unfolding transact
  enqueue-instruments w x =
      settled-instruments (yielded s.turns x)
        (enqueue_job (s.turns x.turn).now w (yielded s.turns x).db.queue)
      ∙ stable.instruments x.turn x.db

  -- A loop that ends has a job for each instrument type, and leaves them as they are.
  each-length :
      (c : County) (key : String) (priority : ℤ) (is : List Instrument) (x : World O)
      {jobs : List (ℕ × Bool)}
      → (enqueue_each s c key priority is x).0 ≡ ok jobs
      → (length jobs ≡ length is)
        × ((enqueue_each s c key priority is x).1.db.instruments ≡ x.db.instruments)
  each-length c key priority [] x {jobs} e =
      unfold enqueue_each in let all : jobs ≡ [] = ground arith in (rw all refl, refl)
  each-length c key priority (i ∷ is) x {jobs} e =
      let (job, rest, first, second, same, ended) = each-ok s fair c key priority i is x e in
      let x1 = (enqueue s (job_of c key priority i) x).1 in
      let (n, kept) = each-length c key priority is x1 second in
      (rw same (ap suc n), rw ended (kept ∙ enqueue-instruments (job_of c key priority i) x))

  county-length :
      (county key : String) (priority : ℤ) (x : World O) {jobs : List (ℕ × Bool)}
      → (enqueue_county s county key priority x).0 ≡ ok jobs
      → (length jobs ≡ length x.db.instruments)
        × ((enqueue_county s county key priority x).1.db.instruments ≡ x.db.instruments)
  county-length county key priority x {jobs} e =
      let (open_, (c, found)) = county-accepted s fair stable county key priority x e in
      let run = county-found s fair stable county key priority x c open_ found in
      let x1 = yielded s.turns x in
      let x2 = yielded s.turns x1 in
      let is = sort_by (λ i. i.id) x.db.instruments in
      let (n, kept) = each-length c key priority is x2 (rw run at e) in
      (
        n ∙ length-sort_by (λ i. i.id) x.db.instruments,
        rw run (kept ∙ stable.instruments x1.turn x1.db ∙ stable.instruments x.turn x.db),
      )

  counties-length :
      (key : String) (index : ℕ) (counties : List String) (x : World O) {jobs : List (ℕ × Bool)}
      → (enqueue_counties s key index counties x).0 ≡ ok jobs
      → length jobs ≡ length counties * length x.db.instruments
  unfolding enqueue_counties
  counties-length key index [] x {jobs} e =
      let all : jobs ≡ [] = ground arith in rw all (omega arith)
  counties-length key index (county ∷ counties) x {jobs} e =
      let (first, e1, run1) =
        bind-ok (enqueue_county s county (county_key key index) (pos 100))
          (λ jobs. enqueue_counties s key (suc index) counties >>= λ more. pure (jobs ++ more)) x
          e in
      let x1 = (enqueue_county s county (county_key key index) (pos 100) x).1 in
      let (more, e2, run2) =
        bind-ok (enqueue_counties s key (suc index) counties) (λ more. pure (first ++ more)) x1
          (rw run1 at e) in
      let all : ok (first ++ more) ≡ ok jobs = rw (run1, run2) at e in
      let same : first ++ more ≡ jobs = ground (arith, all) in
      let (n, kept) = county-length county (county_key key index) (pos 100) x e1 in
      let m = counties-length key (suc index) counties x1 e2 in
      let total = length-append first more in
      let rest : length more ≡ length counties * length x.db.instruments =
        m ∙ ap (λ (l : List Instrument). length counties * length l) kept in
      rw (← same) (
        total
        ∙ product_step (length counties) (length x.db.instruments) (length first) (length more) n
            rest)

  -- From the same world, the preview of `/scrape/multi` names as many jobs as the call answers with:
  -- one for each county and instrument type, where the call is accepted.
  pub scrape_multi-previewed :
      (h p : Headers) (counties : List String) (x : World O) (key preview_key : String)
      (jobs created : ℕ)
      → s.credential ≡ true
      → validate_idempotency_key h.idempotency_key ≡ ok key
      → validate_idempotency_key p.idempotency_key ≡ ok preview_key
      → dry_run h ≡ ok false
      → dry_run p ≡ ok true
      → (scrape_multi s h counties x).0 ≡ ok (queued jobs created)
      → (jobs ≡ length counties * length x.db.instruments)
        × ((scrape_multi s p counties x).0 ≡ ok (previewed jobs))
  unfolding scrape_multi transact
  scrape_multi-previewed h p counties x key preview_key jobs created open_ kh kp wet dry e =
      let (all, e1, run) =
        bind-ok (enqueue_counties s key 0 counties)
          (λ js. pure (queued (length js) (created_count js))) x
          (rw (scrape_multi, with_key, kh, wet) at e) in
      let answered : queued (length all) (created_count all) ≡ queued jobs created =
        ground (arith, rw (scrape_multi, with_key, kh, wet, run) at e) in
      let many : length all ≡ jobs = ground (arith, answered) in
      let total : jobs ≡ length counties * length x.db.instruments =
        sym many ∙ counties-length key 0 counties x e1 in
      let same = stable.instruments x.turn x.db in
      (total, rw (scrape_multi, with_key, kp, dry, open_) (rw (same, ← total) refl))
