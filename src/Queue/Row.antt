-- ===== src/Queue/Row.antt =====
-- storage.py: a row of `work_queue` and of `work_queue_dead_letter` as schema.sql declares them,
-- and the leased job that a claim hands to the worker. Times are numbers of one clock unit; a UUID
-- token is the number that it stands for.
use shadowglass_v35_runtime.Common.{ℕ, String, Bool, true, false, Option, List}
use shadowglass_v35_runtime.Common.Int.{ℤ}
use shadowglass_v35_runtime.Json.{Payload}

pub data State : Type 0 where
  pending paused processing completed dead : State

-- The tests `state = '…'` of the statements.
abbrev pub is_pending : State → Bool
is_pending pending = true
is_pending _ = false

abbrev pub is_paused : State → Bool
is_paused paused = true
is_paused _ = false

abbrev pub is_processing : State → Bool
is_processing processing = true
is_processing _ = false

-- `state IN ('pending', 'paused', 'processing')`
abbrev pub is_open : State → Bool
is_open completed = false
is_open dead = false
is_open _ = true

pub record Row : Type 0 where
  pub id : ℕ
  pub job_kind : String
  pub payload : Payload
  pub payload_version : ℕ
  pub idempotency_key : String
  pub state : State
  pub priority : ℤ
  pub available_at : ℕ
  pub attempts : ℕ
  pub max_attempts : ℕ
  pub leased_by : Option String
  pub lease_token : Option ℕ
  pub lease_expires_at : Option ℕ
  pub last_error : Option String
  pub created_at : ℕ
  pub updated_at : ℕ
  pub completed_at : Option ℕ

pub record DeadLetter : Type 0 where
  pub queue_id : ℕ
  pub job_kind : String
  pub payload : Payload
  pub payload_version : ℕ
  pub idempotency_key : String
  pub attempts : ℕ
  pub max_attempts : ℕ
  pub last_error : Option String
  pub failed_at : ℕ

-- The two tables; `next_id` is the identity sequence of the first.
pub record Queue : Type 0 where
  pub rows : List Row
  pub next_id : ℕ
  pub dead_letters : List DeadLetter

pub record QueueJob : Type 0 where
  pub id : ℕ
  pub job_kind : String
  pub payload : Payload
  pub payload_version : ℕ
  pub idempotency_key : String
  pub attempts : ℕ
  pub max_attempts : ℕ
  pub lease_token : ℕ
  pub lease_expires_at : ℕ
