-- ===== src/App/Routes.antt =====
-- app.py: `_idempotency`, `_dry_run`, the routes that change the queue, and the exception handlers.
-- A body comes validated by Requests.antt, or FastAPI answers 422 in place of the route.
pub mod Preview
use Prim.Native.String
use shadowglass_v35_runtime.Common.{
  ℕ, zero, suc, ◌+◌, ◌-◌, ◌*◌, String, Bool, true, false, not, ◌&&◌, Option, none, some, List, [],
  ◌∷◌, ◌++◌, length, count, ltb, coalesce, if◌then◌else◌,
}
use shadowglass_v35_runtime.Common.Int.{pos}
use shadowglass_v35_runtime.Common.Text.{is_empty, strip, show}
use shadowglass_v35_runtime.Common.Result.{
  Result, Exception, ok, err, not_found, service_unavailable, job_state_conflict,
  idempotency_conflict, value_error,
}
use shadowglass_v35_runtime.Queue.Row.{State}
use shadowglass_v35_runtime.Worker.Proc.{Proc, World, ◌>>=◌, pure, lift}
use shadowglass_v35_runtime.Service.Jobs.{
  Service, instrument_type_count, enqueue_scrape, enqueue_county, enqueue_discovery, set_paused,
}
use shadowglass_v35_runtime.Requests.{ScrapeRequest, DirectScrapeRequest, validate_idempotency_key}
use shadowglass_v35_runtime.App.Access.{compare_digest}

-- What a route answers.
pub data Reply : Type 0 where
  http_error : ℕ → String → Reply
  previewed : ℕ → Reply
  queued_one : Bool → ℕ → Reply
  queued : ℕ → ℕ → Reply
  preview_state : ℕ → State → Reply
  switched : ℕ → State → Reply

-- The headers that the routes read, and the smoke token's credential.
pub record Headers : Type 0 where
  pub idempotency_key : Option String
  pub smoke_token : String
  pub expected : String

-- `bool(expected and presented and hmac.compare_digest(presented, expected))`
unfoldable pub dry_run : Headers → Result Bool
unfolding compare_digest
dry_run h =
    let presented = strip h.smoke_token in
    if is_empty h.expected
    then ok false
    else if is_empty presented
    then ok false
    else compare_digest presented h.expected

-- `sum(created for _, created in jobs)`
abbrev pub created_count : List (ℕ × Bool) → ℕ
created_count jobs = count (λ job. job.1) jobs

-- f"{key}:county:{index}"
unfoldable pub county_key : String → ℕ → String
unfolding show
county_key key index = String.◌++◌ key (String.◌++◌ ":county:" (show index))

module _ {O : Type 0} where
  -- `_idempotency`, whose 400 ends the route.
  abbrev pub with_key : Headers → (String → Proc O Reply) → Proc O Reply
  with_key h route = elim (validate_idempotency_key h.idempotency_key) [
    | ok key ↦ route key
    | err e m ↦ pure (http_error 400 m)
  ]

  module _ (s : Service) where
    unfoldable pub scrape : Headers → ScrapeRequest → Proc O Reply
    unfolding dry_run enqueue_scrape
    scrape h body = with_key h λ key. do
      dry ← lift (dry_run h)
      if dry then pure (previewed 1) else (do
        job ←
            enqueue_scrape s body.county body.instrument body.start_page body.start_page key
              (pos 100)
        pure (queued_one job.1 job.0))

    unfoldable pub scrape_direct : Headers → DirectScrapeRequest → Proc O Reply
    unfolding dry_run enqueue_scrape
    scrape_direct h body = with_key h λ key. do
      dry ← lift (dry_run h)
      if dry then pure (previewed 1) else (do
        job ← enqueue_scrape s body.county body.instrument 0 (body.pages - 1) key (pos 10)
        pure (queued_one job.1 job.0))

    unfoldable pub scrape_all : Headers → String → Proc O Reply
    unfolding dry_run enqueue_county
    scrape_all h county = with_key h λ key. do
      dry ← lift (dry_run h)
      if dry then (instrument_type_count s >>= λ n. pure (previewed n)) else (do
        jobs ← enqueue_county s county key (pos 100)
        pure (queued (length jobs) (created_count jobs)))

    -- `for index, county in enumerate(body.counties)`, from `index` on.
    unfoldable pub enqueue_counties : String → ℕ → List String → Proc O (List (ℕ × Bool))
    unfolding enqueue_county county_key
    enqueue_counties key index [] = pure []
    enqueue_counties key index (county ∷ counties) = do
      jobs ← enqueue_county s county (county_key key index) (pos 100)
      more ← enqueue_counties key (suc index) counties
      pure (jobs ++ more)

    unfoldable pub scrape_multi : Headers → List String → Proc O Reply
    unfolding dry_run enqueue_counties
    scrape_multi h counties = with_key h λ key. do
      dry ← lift (dry_run h)
      if dry then (instrument_type_count s >>= λ n. pure (previewed (length counties * n))) else (do
        jobs ← enqueue_counties key 0 counties
        pure (queued (length jobs) (created_count jobs)))

    unfoldable pub discover : Headers → String → Proc O Reply
    unfolding dry_run enqueue_discovery
    discover h county = with_key h λ key. do
      dry ← lift (dry_run h)
      if dry then (instrument_type_count s >>= λ n. pure (previewed n)) else (do
        jobs ← enqueue_discovery s county key
        pure (queued (length jobs) (created_count jobs)))

    -- `pause` and `resume`
    unfoldable pub switch_route : Bool → Headers → ℕ → Proc O Reply
    unfolding dry_run set_paused
    switch_route pausing h id = with_key h λ key.
        if ltb id 1 then pure (http_error 400 "invalid job id") else (do
          dry ← lift (dry_run h)
          if dry
              then pure (preview_state id (if pausing then State.paused else State.pending))
              else (do row ← set_paused s id pausing; pure (switched row.0 row.1)))

-- The status code of a route: `status_code=202`, the exception handlers, and the middleware's 500.
abbrev pub status_of : Result Reply → ℕ
status_of (ok (http_error status m)) = status
status_of (ok (preview_state id state)) = 200
status_of (ok (switched id state)) = 200
status_of (ok _) = 202
status_of (err not_found m) = 404
status_of (err service_unavailable m) = 503
status_of (err job_state_conflict m) = 409
status_of (err idempotency_conflict m) = 409
status_of (err _ m) = 500
