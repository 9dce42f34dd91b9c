-- ===== src/Lib.antt =====
-- ShadowGlass v35 runtime: the queue of scrape jobs, its worker, its scheduler and its API.
--
-- The program scrapes county deed records. app.py is an HTTP API behind tokens and a rate limiter; it
-- puts jobs into the PostgreSQL table `work_queue` through service.py. scheduled_job.py puts one
-- discovery an hour into the same table. queue_worker.py claims a job, scrapes through scraper.py and
-- relay.py, writes page objects through object_store.py and completes the job in one transaction with
-- its records. storage.py holds all transactions of the queue. consumer_canary.py tries a new worker on a
-- job of its own before a release.
--
-- How the code is modelled. A transaction is a function from the tables to the tables, and on an
-- exception the tables stay. `clock_timestamp()`, `uuid.uuid4()` and the rows that other transactions
-- hold are arguments; a statement reads the clock once. An UPDATE maps a function over the rows that
-- its WHERE clause passes; INSERT .. ON CONFLICT looks for the key first. Times are numbers of
-- microseconds; a text in a timestamp column is the number that it stands for. A Python exception is
-- an `err` with its class and message. A call that runs several transactions (process_once, the
-- service's calls, the routes) is a `Proc`: before each of its transactions the other processes may
-- run theirs, as its schedule says, and what it committed before an exception stays. The recovery and
-- the claiming statement of one claim_job commit apart; what others do to the queue between them is an
-- argument (`between` of a turn), and what they do then to other tables counts to their next turn.
--
-- Which file models what:
--   Common, Common/*: Python's and SQL's operations on texts, numbers, options and lists; exceptions.
--   Json, Json/Dict: payloads, and the comparison of their canonical texts.
--   Queue/Row, Queue/Table: the rows of schema.sql's work_queue and work_queue_dead_letter, and the
--     statements on them. Queue/Lease: extend_lease, renew_lease, complete_job, lease_write_fence.
--     Queue/Recover: recover_stale_leases. Queue/Claim: claim_job. Queue/Fail: fail_job,
--     dead_letter_job, cancel_acceptance_canary, get_queue_job_state. Queue/Enqueue: enqueue_job, and
--     set_paused of service.py.
--   Queue/Invariant/*: the invariant of the two tables and its preservation by each operation.
--     Queue/Reach: the interleavings. Queue/Ownership/*: what a lease gives its owner.
--     Queue/Recovery/*: recoveries. Queue/Idempotency: keys across retries.
--   Database/*: load_job_context, complete_discovery and complete_scrape of storage.py. Database/Queued:
--     the pages that a discovery queues; Common/Text/Decimal: their numbers as texts.
--   Worker/Payload: validate_payload of queue_worker.py. Worker/Proc: schedules and the interfaces of
--     the scraper and the object store. Worker/Process: process_once. Worker/Keeps, Worker/Outcome:
--     its invariant and its answers.
--   Service/Jobs: service.py's calls that change the queue. Service/Accepted: their jobs as the worker
--     reads them. Service/Retry/*: their retries.
--   Scheduler, Scheduler/Hourly: run_hourly of scheduled_job.py.
--   Json/Dumps, Json/Tree: json.dumps's texts, json.loads's values. Json/Dumps/Plain: texts without
--     escapes.
--   ObjectStore/Identity, ObjectStore/Client, ObjectStore/Writes, ObjectStore/Canary: object_store.py,
--     over a client of the bucket. ObjectStore/Immutable, ObjectStore/Stored: its writes over a client
--     that keeps its documented behaviour. ObjectStore/Pages, Worker/Objects: the worker with it.
--     ObjectStore/Timestamp: documents of other times.
--   Network, Network/Sets: what relay.py and scraper.py know of URLs and connections; each DNS query and
--     each connection is a step on the state of the network. Network/Traffic: what such steps keep.
--     Relay/Origin, Relay/Call, Relay/Browse: relay.py. Relay/Pinned, Relay/Public: where it connects to.
--   Scraper/Session: PinnedSession of scraper.py; Scraper/Session/Traffic, Scraper/Session/Pinned: where
--     it connects to.
--     Scraper/Tables, Scraper/Parse: parse_public_search. Scraper/TylerRows, Scraper/Tyler: the Tyler
--     adapter. Scraper/Chunks: its ranges of dates. Scraper/Remote, Scraper/Adapter: discover and
--     scrape, with their heartbeats. Scraper/Gives, Scraper/Pages: the pages that they answer.
--   Canary: run_acceptance_canary of consumer_canary.py. Canary/Polling: its loop. Canary/Closed, Canary/Watched,
--     Canary/Finished: its job when it ends. Canary/Accepted, Canary/Cleaned: what its answer says.
--   Requests, Requests/Literal: core.py.
--   App/Limiter: SlidingWindowLimiter of app.py; App/Access: its tokens and middleware; App/Routes: its
--     routes that change the queue, with their previews.
--   Tests/*: runs on concrete data.
--
-- Bounds and fuel. Most loops recurse on their data: the rows, the pages, the instrument types, the
-- heartbeats of a script, the addresses of a host, the events of a parser; a session follows as many
-- redirects as the call says. Fuel is in `Common.Text.show`, one more than the number, which has fewer
-- digits; and in `Scraper.Chunks.chunks_from`, one more than the last day, of which each round takes
-- days off; and in `Canary.watch`, a round for each pause that fits before the deadline and one more.
-- PostgreSQL's integers are
-- unbounded here; max_attempts is at most 100 by the checks, so the power of two in the backoff stays
-- small.
--
-- Not modelled. PostgreSQL's isolation below whole transactions: two transactions do not overlap but
-- for the rows that a claim skips. Python's `str.casefold`, SHA-256, Unicode classes, urllib.parse,
-- html.parser, the network and the object store's client are arguments, as are PostgreSQL's ILIKE and
-- `strftime`; so is the Master's bucket of artifacts. Pauses, time limits and TLS settings change no
-- state and are left out. The identity sequence of work_queue has no gaps: an INSERT that meets a
-- conflict does not consume an id. The round trip of a payload through JSONB is the identity, of its
-- floats too. Counts and times are natural numbers, so complete_discovery's test for negative totals and
-- run_hourly's for a time without a zone have no case. The read-only queries and routes, the importers, cloudflare_reconcile.py,
-- provision_credentials.py and the other scripts are not modelled; the systemd units, shell scripts
-- and SQL migrations are not in Python.
pub mod Canary
pub mod Common
pub mod Json
pub mod Queue
pub mod Worker
pub mod Database
pub mod Service
pub mod Scheduler
pub mod App
pub mod ObjectStore
pub mod Network
pub mod Relay
pub mod Scraper
pub mod Requests
pub mod Tests
