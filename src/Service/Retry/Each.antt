-- ===== src/Service/Retry/Each.antt =====
-- service.py's loop over the instruments, and `enqueue_county`, when retried.
use shadowglass_v35_runtime.Common.{
  ℕ, zero, suc, ◌+◌, ◌≤◌, String, ◌≡◌, ◌≢◌, refl, sym, ap, ◌∙◌, Bool, true, false, not, Option,
  none, some, List, [], ◌∷◌, map, arith, length, coalesce, eq_iff, str_eq,
}
use shadowglass_v35_runtime.Common.Int.{ℤ}
use shadowglass_v35_runtime.Common.Text.{is_empty, strip}
use shadowglass_v35_runtime.Common.Result.{Result, ok}
use shadowglass_v35_runtime.Queue.Row.{Row}
use shadowglass_v35_runtime.Queue.Enqueue.{Work}
use shadowglass_v35_runtime.Queue.Invariant.Valid.{IsValid}
use shadowglass_v35_runtime.Queue.Invariant.Extends.{Extends}
use shadowglass_v35_runtime.Queue.Idempotency.{Answers, Answers-Extends}
use shadowglass_v35_runtime.Database.Tables.{County, Instrument}
use shadowglass_v35_runtime.Worker.Proc.{World, ◌>>=◌, yielded, pure}
use shadowglass_v35_runtime.Worker.Keeps.{Preserves, Preserves-pure, Preserves-bind, IsFair}
use shadowglass_v35_runtime.Service.Jobs.{
  discover_work, instrument_key, Service, enqueue, enqueue_each,
}
use shadowglass_v35_runtime.Service.Retry.{
  bind-ok, again, after, dict, enqueue-Preserves, enqueue-Answers, enqueue-again,
}

module _ (c : County) (key : String) (priority : ℤ) where
  abbrev pub job_of : Instrument → Work
  job_of i = discover_work c i (instrument_key key i.id) priority

  -- The rows answer for these jobs.
  abbrev pub AllAnswers : List Instrument → List (ℕ × Bool) → List Row → Type 0
  AllAnswers [] [] rows = Unit
  AllAnswers (i ∷ is) (job ∷ jobs) rows =
      Answers (job_of i) job.0 rows
      × (is_empty (strip (job_of i).idempotency_key) ≡ false)
      × AllAnswers is jobs rows
  AllAnswers _ _ rows = ⊥

  pub AllAnswers-Extends :
      (is : List Instrument) (jobs : List (ℕ × Bool)) (rows more : List Row)
      → AllAnswers is jobs rows
      → Extends rows more
      → AllAnswers is jobs more
  AllAnswers-Extends [] [] rows more a x = tt
  AllAnswers-Extends [] (job ∷ jobs) rows more a x = elim a [ ]
  AllAnswers-Extends (i ∷ is) [] rows more a x = elim a [ ]
  AllAnswers-Extends (i ∷ is) (job ∷ jobs) rows more (a, k, rest) x = (
    Answers-Extends (job_of i) job.0 rows more a x,
    k,
    AllAnswers-Extends is jobs rows more rest x,
  )

module _ {O : Type 0} (s : Service) (fair : IsFair s.turns) where
  module _ (c : County) (key : String) (priority : ℤ) where
    pub enqueue_each-Preserves :
        (is : List Instrument) → Preserves {O = O} (enqueue_each s c key priority is)
    unfolding enqueue_each
    enqueue_each-Preserves [] = Preserves-pure []
    enqueue_each-Preserves (i ∷ is) =
        Preserves-bind _ _ (enqueue-Preserves s fair (job_of c key priority i))
          λ job. Preserves-bind _ _ (enqueue_each-Preserves is) λ jobs. Preserves-pure (job ∷ jobs)

    -- A successful loop, taken apart.
    pub each-ok :
        (i : Instrument) (is : List Instrument) (x : World O) {jobs : List (ℕ × Bool)}
        → (enqueue_each s c key priority (i ∷ is) x).0 ≡ ok jobs
        → (job : ℕ × Bool) × (rest : List (ℕ × Bool)) × ((enqueue s (job_of c key priority i) x).0
            ≡ ok job)
          × ((enqueue_each s c key priority is (enqueue s (job_of c key priority i) x).1).0
              ≡ ok rest)
          × (jobs ≡ job ∷ rest)
          × ((enqueue_each s c key priority (i ∷ is) x).1
              ≡ (enqueue_each s c key priority is (enqueue s (job_of c key priority i) x).1).1)
    unfolding enqueue_each
    each-ok i is x {jobs} e =
        let (job, first, here) =
          bind-ok (enqueue s (job_of c key priority i))
            (λ job. enqueue_each s c key priority is >>= λ rest. pure (job ∷ rest)) x e in
        let x1 = (enqueue s (job_of c key priority i) x).1 in
        let (rest, second, there) =
          bind-ok (enqueue_each s c key priority is) (λ rest. pure (job ∷ rest)) x1
            (rw here at e) in
        let all : ok (job ∷ rest) ≡ ok jobs = rw (here, there) at e in
        (
          job,
          rest,
          first,
          second,
          ground (arith, all),
          ap (λ (z : Result (List (ℕ × Bool)) × World O). z.1) (here ∙ there),
        )

    pub each-Answers :
        (is : List Instrument) (x : World O) {jobs : List (ℕ × Bool)}
        → IsValid x.db.queue
        → (enqueue_each s c key priority is x).0 ≡ ok jobs
        → AllAnswers c key priority is jobs (enqueue_each s c key priority is x).1.db.queue.rows
    each-Answers [] x {jobs} v e =
        unfold enqueue_each in let none_left : jobs ≡ [] = ground arith in rw none_left tt
    each-Answers (i ∷ is) x {jobs} v e =
        let (job, rest, first, second, same, ended) = each-ok i is x e in
        let x1 = (enqueue s (job_of c key priority i) x).1 in
        let v1 = ((enqueue-Preserves s fair (job_of c key priority i)).at x v).0 in
        let (found, k) =
          enqueue-Answers s fair (job_of c key priority i)
            (dict "discover" c.name i.name (coalesce c.platform "") c.id i.id 0 0) x first in
        let grown = ((enqueue_each-Preserves is).at x1 v1).1 in
        rw (same, ended)
          (
            Answers-Extends (job_of c key priority i) job.0 x1.db.queue.rows
                (enqueue_each s c key priority is x1).1.db.queue.rows found grown,
            k,
            each-Answers is x1 v1 second,
          )

    pub each-again :
        (is : List Instrument) (jobs : List (ℕ × Bool)) (x : World O)
        → IsValid x.db.queue
        → AllAnswers c key priority is jobs x.db.queue.rows
        → enqueue_each s c key priority is x ≡ (ok (map again jobs), after s.turns (length is) x)
    unfolding enqueue_each shadowglass_v35_runtime.Common.Text.strip
    each-again [] [] x v a = refl
    each-again [] (job ∷ jobs) x v a = elim a [ ]
    each-again (i ∷ is) [] x v a = elim a [ ]
    each-again (i ∷ is) (job ∷ jobs) x v (a, k, others) =
        let x' = yielded s.turns x in
        let kept = fair.others_keep x.turn x.db v in
        let head =
          enqueue-again s fair (job_of c key priority i)
            (dict "discover" c.name i.name (coalesce c.platform "") c.id i.id 0 0) x job.0 v a refl
            k (omega arith) (omega arith) in
        let tail = each-again is jobs x' kept.0 (
          AllAnswers-Extends c key priority is jobs x.db.queue.rows x'.db.queue.rows others
            kept.1) in
        rw (head, tail) refl
