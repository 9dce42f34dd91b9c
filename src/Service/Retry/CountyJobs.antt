-- ===== src/Service/Retry/CountyJobs.antt =====
-- service.py's `enqueue_county` and `enqueue_discovery`, when retried.
use shadowglass_v35_runtime.Common.{
  ℕ, suc, String, ◌≡◌, refl, ap, ◌∙◌, inl, inr, Bool, true, List, map, length, Bool-cases,
}
use shadowglass_v35_runtime.Common.Int.{ℤ}
use shadowglass_v35_runtime.Common.Sorted.{sort_by, length-sort_by}
use shadowglass_v35_runtime.Common.Result.{Result, ok, err, Result-cases}
use shadowglass_v35_runtime.Queue.Invariant.Valid.{IsValid}
use shadowglass_v35_runtime.Queue.Invariant.Extends.{Extends-trans, Keeps}
use shadowglass_v35_runtime.Database.Tables.{County, Instrument, Db}
use shadowglass_v35_runtime.Worker.Proc.{Turn, World, yielded, settled, transact, query}
use shadowglass_v35_runtime.Worker.Keeps.{IsFair}
use shadowglass_v35_runtime.Service.Jobs.{
  Service, connection, resolve_county, enqueue_each, enqueue_county,
}
use shadowglass_v35_runtime.Service.Retry.{again, after}
use shadowglass_v35_runtime.Service.Retry.Each.{
  each-Answers, each-again, enqueue_each-Preserves, AllAnswers-Extends,
}

-- The other processes do not change the counties and the instrument types.
pub record IsStable (turns : ℕ → Turn) : Type 0 where
  pub counties : (n : ℕ) (db : Db) → ((turns n).others db).counties ≡ db.counties
  pub instruments : (n : ℕ) (db : Db) → ((turns n).others db).instruments ≡ db.instruments

module _ {O : Type 0} where
  settled-query : {A : Type 0} (x : World O) (r : Result A) → settled x (query r x.db) ≡ (r, x)
  settled-query x (ok a) = refl
  settled-query x (err e m) = refl

module _ {O : Type 0} (s : Service) (fair : IsFair s.turns) (stable : IsStable s.turns) where
  connected : (x : World O) → s.credential ≡ true → connection s x ≡ (ok tt, x)
  connected x e = rw e refl

  resolved :
      (county : String) (x : World O)
      → resolve_county s.ilike county (yielded s.turns x).db ≡ resolve_county s.ilike county x.db
  resolved county x = let same = stable.counties x.turn x.db in rw same refl

  -- What `enqueue_county` does once the county is found.
  pub county-found :
      (county key : String) (priority : ℤ) (x : World O) (c : County)
      → s.credential ≡ true
      → resolve_county s.ilike county x.db ≡ ok c
      → enqueue_county s county key priority x
        ≡ enqueue_each s c key priority
            (sort_by (λ i. i.id) x.db.instruments)
            (yielded s.turns (yielded s.turns x))
  unfolding enqueue_county transact
  county-found county key priority x c open_ found =
      let x1 = yielded s.turns x in
      let x2 = yielded s.turns x1 in
      let first : settled x1 (query (resolve_county s.ilike county x1.db) x1.db) ≡ (ok c, x1) =
        settled-query x1 (resolve_county s.ilike county x1.db)
        ∙ ap (λ (r : Result County). (r, x1)) (resolved county x ∙ found) in
      let same : x2.db.instruments ≡ x.db.instruments =
        stable.instruments x1.turn x1.db ∙ stable.instruments x.turn x.db in
      rw (open_, first, same) refl

  -- An accepted call found its county.
  pub county-accepted :
      (county key : String) (priority : ℤ) (x : World O) {jobs : List (ℕ × Bool)}
      → (enqueue_county s county key priority x).0 ≡ ok jobs
      → (s.credential ≡ true) × ((c : County) × (resolve_county s.ilike county x.db ≡ ok c))
  unfolding enqueue_county transact
  county-accepted county key priority x {jobs} e = elim (Bool-cases s.credential) [
    | inr closed ↦ absurd (let h = rw closed at e in cc)
    | inl open_ ↦ elim (Result-cases (resolve_county s.ilike county x.db)) [
      | inl (c, found) ↦ (open_, (c, found))
      | inr (f, m, missing) ↦
          let x1 = yielded s.turns x in
          let first : settled x1 (query (resolve_county s.ilike county x1.db) x1.db)
              ≡ (err f m, x1) =
            settled-query x1 (resolve_county s.ilike county x1.db)
            ∙ ap (λ (r : Result County). (r, x1)) (resolved county x ∙ missing) in
          absurd (let h = rw (open_, first) at e in cc)
    ]
  ]

  -- Once `enqueue_county` has answered with its jobs, a later call with the same county, key and
  -- priority answers with the same job ids and says of each that it was not created, and the queue
  -- changes by the other processes' transactions alone: whatever ran in between and runs during it,
  -- as long as the queue's invariant and the table of the counties and instruments are kept.
  pub enqueue_county-again :
      (county key : String) (priority : ℤ) (x y : World O) {jobs : List (ℕ × Bool)}
      → IsValid x.db.queue
      → (enqueue_county s county key priority x).0 ≡ ok jobs
      → Keeps (enqueue_county s county key priority x).1.db.queue y.db.queue
      → y.db.counties ≡ x.db.counties
      → y.db.instruments ≡ x.db.instruments
      → enqueue_county s county key priority y
        ≡ (ok (map again jobs), after s.turns (suc (suc (length x.db.instruments))) y)
  enqueue_county-again county key priority x y {jobs} v e kept same_counties same_instruments =
      let (open_, (c, found)) = county-accepted county key priority x e in
      let x2 = yielded s.turns (yielded s.turns x) in
      let v1 = (fair.others_keep x.turn x.db v).0 in
      let v2 = (fair.others_keep (yielded s.turns x).turn (yielded s.turns x).db v1).0 in
      let is = sort_by (λ i. i.id) x.db.instruments in
      let run = county-found county key priority x c open_ found in
      let ends = (enqueue_each-Preserves s fair c key priority is).at x2 v2 in
      let answers = each-Answers s fair c key priority is x2 v2 (rw run at e) in
      let (vy, grown) = (rw run at kept) ends.0 in
      let y1 = yielded s.turns y in
      let y2 = yielded s.turns y1 in
      let (vy1, grown1) = fair.others_keep y.turn y.db vy in
      let (vy2, grown2) = fair.others_keep y1.turn y1.db vy1 in
      let lasting =
        Extends-trans (enqueue_each s c key priority is x2).1.db.queue.rows y1.db.queue.rows
          y2.db.queue.rows
          (Extends-trans (enqueue_each s c key priority is x2).1.db.queue.rows y.db.queue.rows
            y1.db.queue.rows grown grown1)
          grown2 in
      let answers' =
        AllAnswers-Extends c key priority is jobs
          (enqueue_each s c key priority is x2).1.db.queue.rows y2.db.queue.rows answers lasting in
      let found' : resolve_county s.ilike county y.db ≡ ok c = rw same_counties found in
      let rerun = county-found county key priority y c open_ found' in
      let replayed = each-again s fair c key priority is jobs y2 vy2 answers' in
      let many = length-sort_by (λ i. i.id) x.db.instruments in
      rerun
      ∙ ap (λ (l : List Instrument). enqueue_each s c key priority (sort_by (λ i. i.id) l) y2)
          same_instruments
      ∙ rw many at replayed
