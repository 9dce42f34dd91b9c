-- ===== src/Worker/Proc.antt =====
-- How a call that runs several transactions goes, queue_worker.py's `process_once` as well as
-- service.py's calls: one transaction after another; before each, other processes may run theirs. A
-- schedule says for each turn what they did and what the clock and `uuid.uuid4` answer. What was
-- committed before a raise stays, so a procedure returns the world beside an exception too.
use shadowglass_v35_runtime.Common.{ℕ, ◌+◌, String, Bool, List}
use shadowglass_v35_runtime.Common.Result.{Result, ok, err}
use shadowglass_v35_runtime.Queue.Row.{Queue}
use shadowglass_v35_runtime.Queue.Recover.{Readings}
use shadowglass_v35_runtime.Queue.Lease.{LeaseWriteFence}
use shadowglass_v35_runtime.Database.Tables.{Db}
use shadowglass_v35_runtime.Database.Context.{JobContext}
use shadowglass_v35_runtime.Database.Scrape.{Record}

-- One turn of the schedule: what others did before it, and, in a turn that claims, what they did to
-- the queue between the recovery's commit and the claiming statement.
pub record Turn : Type 0 where
  pub others : Db → Db
  pub between : Queue → Queue
  pub now : ℕ
  pub acked : ℕ
  pub readings : Readings
  pub locked : ℕ → Bool
  pub token : ℕ

-- scraper.py's results
pub record Discovery : Type 0 where
  pub total_records : ℕ
  pub page_count : ℕ

pub record ScrapedPage : Type 0 where
  pub page : ℕ
  pub records : List Record
  pub total_found : ℕ
  pub dom_total : ℕ

-- `ScraperLike`: remote work that calls its heartbeat some times and then answers or raises.
pub data Script (A : Type 0) : Type 0 where
  done : Result A → Script A
  beat : Script A → Script A

pub record ScraperLike : Type 0 where
  pub discover : JobContext → Script Discovery
  pub scrape : JobContext → ℕ → ℕ → Script (List ScrapedPage)

pub record StoredPage : Type 0 where
  pub key : String
  pub sha256 : String
  pub etag : String
  pub size : ℕ

-- `StoreLike`, over the state of the object store.
pub record StoreLike (Objects : Type 0) : Type 0 where
  pub canary_key : String → Result String
  pub page_key : JobContext → ℕ → Result String
  pub put_page : JobContext → ScrapedPage → LeaseWriteFence → Objects → Result StoredPage × Objects
  pub put_canary : String → LeaseWriteFence → Objects → Result StoredPage × Objects

pub record World (Objects : Type 0) : Type 0 where
  pub db : Db
  pub objects : Objects
  pub turn : ℕ

-- The arguments of `process_once` and what it calls outside this repository's transactions.
pub record Env (Objects : Type 0) : Type 0 where
  pub turns : ℕ → Turn
  pub casefold : String → String
  pub scraper : ScraperLike
  pub store : StoreLike Objects
  pub worker : String
  pub seconds : ℕ

abbrev pub Proc : Type 0 → Type 0 → Type 0
Proc O A = World O → Result A × World O

module _ {O A B : Type 0} where
  abbrev pub continue : Result A → (A → Proc O B) → Proc O B
  continue (ok a) k w = k a w
  continue (err e m) k w = (err e m, w)

  infixl 5 ◌>>=◌ ◌>>◌
  abbrev pub ◌>>=◌ : Proc O A → (A → Proc O B) → Proc O B
  ◌>>=◌ m k w = let (r, w') = m w in continue r k w'

  abbrev pub ◌>>◌ : Proc O A → Proc O B → Proc O B
  m >> n = m >>= λ _. n

module _ {O : Type 0} where
  -- The world after the other processes' turn.
  abbrev pub yielded : (ℕ → Turn) → World O → World O
  yielded turns w = record w { db = (turns w.turn).others w.db; turn = w.turn + 1 }

module _ {O A : Type 0} where
  abbrev pub pure : A → Proc O A
  pure a w = (ok a, w)

  abbrev pub lift : Result A → Proc O A
  lift r w = (r, w)

  -- A raise rolls back.
  abbrev pub settled : World O → Result (A × Db) → Result A × World O
  settled w (ok (a, db)) = (ok a, record w { db = db })
  settled w (err e m) = (err e m, w)

  -- One transaction, with the clock of its turn.
  unfoldable pub transact : (ℕ → Turn) → (Turn → Db → Result (A × Db)) → Proc O A
  transact turns body w = let w' = yielded turns w in settled w' (body (turns w.turn) w'.db)

module _ {A : Type 0} where
  abbrev pub rejoined : Db → Result (A × Queue) → Result (A × Db)
  rejoined db (ok (a, q)) = ok (a, record db { queue = q })
  rejoined db (err e m) = err e m

  -- A statement on the queue alone.
  abbrev pub on_queue : (Queue → Result (A × Queue)) → Db → Result (A × Db)
  on_queue body db = rejoined db (body db.queue)

-- A query: it changes nothing.
abbrev pub query : {A : Type 0} → Result A → Db → Result (A × Db)
query (ok a) db = ok (a, db)
query (err e m) db = err e m
