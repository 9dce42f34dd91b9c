-- ===== src/Scheduler/Hourly.antt =====
-- scheduled_job.py: what an hour's run adds to the queue.
use shadowglass_v35_runtime.Common.{
  ℕ, suc, ◌≤◌, ◌+◌, String, ◌≡◌, ◌≢◌, refl, sym, ap, ◌⊎◌, inl, inr, Bool, true, false, Option, none,
  some, List, [], ◌∷◌, ◌++◌, map, any, find, arith, Bool-cases, Option-cases, coalesce,
}
use shadowglass_v35_runtime.Common.Int.{ℤ, pos, negsuc, eq_ℤ}
use shadowglass_v35_runtime.Common.Sorted.{Has, All-Has}
use shadowglass_v35_runtime.Common.Result.{ok, err, lookup_error}
use shadowglass_v35_runtime.Queue.Row.{Row, Queue, is_open}
use shadowglass_v35_runtime.Queue.Enqueue.{Work, new_row, insert_work, has_key}
use shadowglass_v35_runtime.Queue.Invariant.Extends.{Keeps, Keeps-refl}
use shadowglass_v35_runtime.Queue.Invariant.Insertions.{insert_work-Keeps}
use shadowglass_v35_runtime.Database.Tables.{County, Instrument, ScrapeJob, Db, is_pair}
use shadowglass_v35_runtime.Database.Context.{load_job_context}
use shadowglass_v35_runtime.Worker.Payload.{Task, task, validate_payload}
use shadowglass_v35_runtime.Service.Accepted.{
  IsDirectory, IsReadable, payload-IsReadable, payload-valid, inactive-refused, task_of,
}
use shadowglass_v35_runtime.Scheduler.{
  ScheduleResult, Pair, pair_of, cross, is_candidate, comes_before, earlier, candidate, hourly_work,
  is_busy, is_enabled, is_idle, is_overdue, nothing, schedule, run_hourly,
}

schedule-Keeps :
    (now : ℕ) (bucket : String) (most : ℕ) (probe : Bool) (db : Db) (o : Option Pair)
    → 1 ≤ most
    → most ≤ 100
    → Keeps db.queue (schedule now bucket most probe db o).1.queue
schedule-Keeps now bucket most probe db none lo hi = Keeps-refl db.queue
schedule-Keeps now bucket most true db (some p) lo hi = Keeps-refl db.queue
schedule-Keeps now bucket most false db (some p) lo hi =
    insert_work-Keeps now (hourly_work bucket most p.county p.instrument) db.queue (lo, hi)

-- The candidate is a pair of the join that passes the WHERE clause.
earlier-is : (p : Pair) (o : Option Pair) (z : Pair) → earlier p o ≡ some z → (p ≡ z) ⊎ (o ≡ some z)
earlier-is p none z e = inl (ground (arith, e))
earlier-is p (some r) z e = elim (Bool-cases (comes_before r p)) [
  | inl before ↦ inr (rw before at e)
  | inr after ↦ inl (ground (arith, rw after at e))
]

candidate-Has :
    (instant : ℕ) (ps : List Pair) (z : Pair)
    → candidate instant ps ≡ some z
    → Has z ps × (is_candidate instant z ≡ true)
unfolding candidate
candidate-Has instant [] z e = absurd (ground (arith, e))
candidate-Has instant (p ∷ ps) z e = elim (Bool-cases (is_candidate instant p)) [
  | inl passes ↦ elim (earlier-is p (candidate instant ps) z (rw passes at e)) [
    | inl same ↦ (inl same, rw same at passes)
    | inr later ↦ let (h, t) = candidate-Has instant ps z later in (inr h, t)
  ]
  | inr fails ↦ let (h, t) = candidate-Has instant ps z (rw fails at e) in (inr h, t)
]

Has-append : {A : Type 0} (z : A) (xs ys : List A) → Has z (xs ++ ys) → Has z xs ⊎ Has z ys
Has-append z [] ys h = inr h
Has-append z (x ∷ xs) ys (inl same) = inl (inl same)
Has-append z (x ∷ xs) ys (inr h) = elim (Has-append z xs ys h) [
  | inl l ↦ inl (inr l)
  | inr r ↦ inr r
]

-- A pair of the join: a county, an instrument, and the job that scrape_jobs has for them.
abbrev IsJoined : List ScrapeJob → List County → List Instrument → Pair → Type 0
IsJoined jobs cs is z =
    Has z.county cs × Has z.instrument is × (z ≡ pair_of jobs z.county z.instrument)

pairs-IsJoined :
    (jobs : List ScrapeJob) (c : County) (is : List Instrument) (z : Pair)
    → Has z (map (pair_of jobs c) is)
    → (z.county ≡ c) × Has z.instrument is × (z ≡ pair_of jobs z.county z.instrument)
pairs-IsJoined jobs c [] z h = elim h [ ]
pairs-IsJoined jobs c (i ∷ is) z (inl same) = (
  ap (λ (p : Pair). p.county) (sym same),
  inl (ap (λ (p : Pair). p.instrument) same),
  rw (← same) refl,
)
pairs-IsJoined jobs c (i ∷ is) z (inr h) =
    let (e, k, joined) = pairs-IsJoined jobs c is z h in (e, inr k, joined)

cross-IsJoined :
    (jobs : List ScrapeJob) (cs : List County) (is : List Instrument) (z : Pair)
    → Has z (cross jobs cs is)
    → IsJoined jobs cs is z
cross-IsJoined jobs [] is z h = elim h [ ]
cross-IsJoined jobs (c ∷ cs) is z h =
    elim (Has-append z (map (pair_of jobs c) is) (cross jobs cs is) h) [
      | inl l ↦ let (e, k, joined) = pairs-IsJoined jobs c is z l in (inl (sym e), k, joined)
      | inr r ↦ let (e, k, joined) = cross-IsJoined jobs cs is z r in (inr e, k, joined)
    ]

any-append :
    (rows : List Row) (r : Row)
    → is_open r.state ≡ true
    → any (λ s. is_open s.state) (rows ++ r ∷ []) ≡ true
any-append [] r h = ground (arith, h)
any-append (x ∷ rows) r h =
    let ih = any-append rows r h in ground (arith, ih, Bool-cases (is_open x.state))

insert_work-cases :
    (now : ℕ) (w : Work) (q : Queue)
    → (insert_work now w q ≡ (
      some q.next_id,
      record q { rows = q.rows ++ new_row now q.next_id w ∷ []; next_id = suc q.next_id },
    ))
      ⊎ (insert_work now w q ≡ (none, q))
unfolding insert_work
insert_work-cases now w q = elim (Option-cases (find (has_key w.idempotency_key) q.rows)) [
  | inl absent ↦ inl (rw (insert_work, absent) refl)
  | inr (r, present) ↦ inr (rw (insert_work, present) refl)
]

-- The job is not under way.
abbrev pub IsIdle : Option String → Type 0
IsIdle status = (status ≢ some "running") × (status ≢ some "pending") × (status ≢ some "paused")

-- It was never completed, or a day ago at least.
abbrev pub IsOverdue : ℕ → Option ℕ → Type 0
IsOverdue instant completed =
    (completed ≡ none) ⊎ ((t : ℕ) × (completed ≡ some t) × (t + 86_400_000_000 ≤ instant))

-- The pair has no job in scrape_jobs, or one that is not under way and is overdue.
abbrev pub IsDue : ℕ → List ScrapeJob → County → Instrument → Type 0
IsDue instant jobs c i =
    (find (is_pair c.id i.id) jobs ≡ none)
    ⊎ ((j : ScrapeJob) × (find (is_pair c.id i.id) jobs ≡ some j)
        × IsIdle j.status
        × IsOverdue instant j.completed_at)

-- What a run that enqueued a job did.
pub record IsScheduled (now instant : ℕ) (bucket : String) (most : ℕ) (db db' : Db) : Type 0 where
  pub county : County
  pub instrument : Instrument
  pub county_listed : Has county db.counties
  pub instrument_listed : Has instrument db.instruments
  pub enabled : (county.is_active ≡ none) ⊎ (county.is_active ≡ some (pos 1))
  pub due : IsDue instant db.scrape_jobs county instrument
  pub was_idle : is_busy db.queue ≡ false
  pub added :
      db'.queue.rows
      ≡ db.queue.rows
        ++ new_row now db.queue.next_id (hourly_work bucket most county instrument) ∷ []
  pub is_now_busy : is_busy db'.queue ≡ true

status-IsIdle : (status : Option String) → is_idle status ≡ true → IsIdle status
status-IsIdle status h = (
  λ e. (let h' = rw e at h in absurd (ground (arith, h'))),
  λ e. (let h' = rw e at h in absurd (ground (arith, h'))),
  λ e. (let h' = rw e at h in absurd (ground (arith, h'))),
)

completed-IsOverdue :
    (instant : ℕ) (o : Option ℕ) → is_overdue instant o ≡ true → IsOverdue instant o
completed-IsOverdue instant none h = inl refl
completed-IsOverdue instant (some t) h = inr (t, refl, ground arith)

active_is :
    (o : Option ℤ) → eq_ℤ (coalesce o (pos 1)) (pos 1) ≡ true → (o ≡ none) ⊎ (o ≡ some (pos 1))
active_is none h = inl refl
active_is (some (pos n)) h = inr (let same : n ≡ 1 = ground (arith, h) in rw same refl)
active_is (some (negsuc n)) h = absurd (ground (arith, h))

enabled_county :
    (c : County) → is_enabled c ≡ true → (c.is_active ≡ none) ⊎ (c.is_active ≡ some (pos 1))
enabled_county c h = active_is c.is_active h

-- What the WHERE clause says of a pair of the join.
candidate-IsDue :
    (instant : ℕ) (jobs : List ScrapeJob) (c : County) (i : Instrument)
    → is_candidate instant (pair_of jobs c i) ≡ true
    → is_enabled c ≡ true × IsDue instant jobs c i
unfolding is_candidate
candidate-IsDue instant jobs c i h = elim (Option-cases (find (is_pair c.id i.id) jobs)) [
  | inl missing ↦ (ground (arith, h), inl missing)
  | inr (j, found) ↦
      let h' = rw found at h in
      (
        ground (arith, h'),
        inr (
          j,
          found,
          status-IsIdle j.status (ground (arith, h')),
          completed-IsOverdue instant j.completed_at (ground (arith, h')),
        ),
      )
]

module _ (now instant : ℕ) (bucket : String) (most : ℕ) (db : Db) where
  inserted :
      (p : Pair) {r : ScheduleResult} {db' : Db}
      → schedule now bucket most false db (some p) ≡ (r, db')
      → r.enqueued ≡ 1
      → db'.queue.rows
        ≡ db.queue.rows
          ++ new_row now db.queue.next_id (hourly_work bucket most p.county p.instrument) ∷ []
  inserted p {r} {db'} e one =
      elim (insert_work-cases now (hourly_work bucket most p.county p.instrument) db.queue) [
        | inl added ↦ ground (arith, rw added at e)
        | inr kept ↦ absurd (ground (arith, rw kept at e))
      ]

  -- A run that enqueued a job took a county and an instrument type of the directory: the county's
  -- `is_active` is NULL or 1, and scrape_jobs has no job of the pair, or one that is not under way and
  -- was never completed or at least a day before. The queue had no open job, and exactly that pair's
  -- discovery was added; a run on the resulting tables, of any hour, changes nothing.
  pub run_hourly-IsScheduled :
      (r : ScheduleResult) (db' : Db)
      → run_hourly now instant bucket most false true db ≡ ok (r, db')
      → r.enqueued ≡ 1
      → IsScheduled now instant bucket most db db'
        × ((later then_ : ℕ) (hour : String) (probe : Bool)
            → run_hourly later then_ hour most probe true db' ≡ ok (nothing true, db'))
  unfolding run_hourly
  run_hourly-IsScheduled r db' e one =
      let bounds : (1 ≤ most) × (most ≤ 100) = ground arith in
      elim (Bool-cases (is_busy db.queue)) [
        | inl busy ↦ absurd (ground (arith, busy))
        | inr free ↦
            elim (Option-cases
              (candidate instant (cross db.scrape_jobs db.counties db.instruments))) [
                | inl missing ↦ absurd (ground (arith, free, missing))
                | inr (p, found) ↦
                    let ran : schedule now bucket most false db (some p) ≡ (r, db') =
                      ground (arith, free, found) in
                    let added = inserted p {r = r} {db' = db'} ran one in
                    let (h, t) =
                      candidate-Has instant (cross db.scrape_jobs db.counties db.instruments) p
                        found in
                    let (hc, hi, joined) =
                      cross-IsJoined db.scrape_jobs db.counties db.instruments p h in
                    let (enabled, due) =
                      candidate-IsDue instant db.scrape_jobs p.county p.instrument
                        (rw joined at t) in
                    let busy : is_busy db'.queue ≡ true = rw added (
                      any-append db.queue.rows
                        (new_row now db.queue.next_id
                          (hourly_work bucket most p.county p.instrument))
                        refl) in
                    (
                      record {
                        county = p.county;
                        instrument = p.instrument;
                        county_listed = hc;
                        instrument_listed = hi;
                        enabled = enabled_county p.county enabled;
                        due = due;
                        was_idle = free;
                        added = added;
                        is_now_busy = busy;
                      },
                      λ later then_ hour probe. ground (arith, busy, bounds),
                    )
              ]
      ]

module _ (casefold : String → String) (now instant : ℕ) (bucket : String) (most : ℕ) (db db' : Db)
    (dir : IsDirectory db) where
  -- In a directory, the consumer accepts the payload of a scheduled discovery; it finds its county
  -- where `is_active` is 1, and refuses it where `is_active` is NULL, which the scheduler's query
  -- lets through.
  pub scheduled-IsReadable :
      (s : IsScheduled now instant bucket most db db')
      → (s.county.is_active ≡ some (pos 1)
          → IsReadable casefold db
              (hourly_work bucket most s.county s.instrument)
              s.county
              s.instrument
              0
              0)
        × (s.county.is_active ≡ none
            → (t : Task) × (validate_payload "discover" 1
                  (hourly_work bucket most s.county s.instrument).payload
                ≡ ok (task t))
              × (load_job_context casefold t db
                  ≡ err lookup_error "queue context does not identify an active county/instrument"))
  scheduled-IsReadable s =
      let c = s.county in
      let i = s.instrument in
      (
        λ active.
            payload-IsReadable casefold db dir c i s.county_listed s.instrument_listed
              (hourly_work bucket most c i) "discover" 0 0 refl refl refl refl refl
              (ground (arith, active)) (omega arith) (omega arith),
        λ null.
            let (cpos, cname, cplat) = All-Has _ db.counties c dir.counties s.county_listed in
            let (ipos, iname) = All-Has _ db.instruments i dir.instruments s.instrument_listed in
            (
              task_of "discover" c.name c.id i.name i.id 0 0 (coalesce c.platform ""),
              payload-valid c.name i.name (coalesce c.platform "") c.id i.id 0 0 cname iname cplat
                  cpos ipos (omega arith) (omega arith) "discover" refl refl,
              inactive-refused casefold db dir c i s.county_listed s.instrument_listed "discover" 0
                  0 null,
            ),
      )
