-- ===== src/Queue.antt =====
-- storage.py's leased work queue, with service.py's pause switch. Each child has the code that its
-- header names; the proofs are in `Invariant`, `Ownership` and `Reach`.
pub mod Row
pub mod Table
pub mod Lease
pub mod Recover
pub mod Claim
pub mod Fail
pub mod Enqueue
pub mod Invariant
pub mod Reach
pub mod Ownership
pub mod Recovery
pub mod Idempotency
