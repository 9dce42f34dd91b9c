-- ===== src/Scraper/Remote.antt =====
-- Remote work of scraper.py: calls over the network, between which it calls its heartbeat.
use shadowglass_v35_runtime.Common.Result.{Result, ok, err}
use shadowglass_v35_runtime.Network.{Net}
use shadowglass_v35_runtime.Worker.Proc.{Script}
use shadowglass_v35_runtime.Worker.Proc

-- A run: its heartbeats, its answer and the world outside at its end.
pub data Trace (W A : Type 0) : Type 0 where
  ended : Result A → W → Trace W A
  beating : Trace W A → Trace W A

abbrev pub Remote : Type 0 → Type 0 → Type 0
Remote W A = W → Trace W A

module _ {W A B : Type 0} where
  abbrev pub answered : Result A → W → (A → Remote W B) → Trace W B
  answered (ok a) w k = k a w
  answered (err e m) w k = ended (err e m) w

  -- What follows a run.
  abbrev pub followed : Trace W A → (A → Remote W B) → Trace W B
  followed (ended r w) k = answered r w k
  followed (beating t) k = beating (followed t k)

  infixl 5 ◌>>=◌ ◌>>◌
  abbrev pub ◌>>=◌ : Remote W A → (A → Remote W B) → Remote W B
  ◌>>=◌ m k w = followed (m w) k

  abbrev pub ◌>>◌ : Remote W A → Remote W B → Remote W B
  m >> k = m >>= λ _. k

module _ {W A : Type 0} where
  abbrev pub pure : A → Remote W A
  pure a w = ended (ok a) w

  abbrev pub lift : Result A → Remote W A
  lift r w = ended r w

  -- Calls over the network have no heartbeat.
  abbrev pub over : Net W A → Remote W A
  over m w = let (r, w') = m w in ended r w'

  -- The heartbeats and the answer alone: what the worker sees.
  abbrev pub script : Trace W A → Script A
  script (ended r w) = Proc.done r
  script (beating t) = Proc.beat (script t)

module _ {W : Type 0} where
  -- `heartbeat()`
  abbrev pub heartbeat : Remote W (Unit {0})
  heartbeat w = beating (ended (ok tt) w)
