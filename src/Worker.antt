-- ===== src/Worker.antt =====
-- queue_worker.py: the durable consumer.
pub mod Payload
pub mod Proc
pub mod Process
pub mod Keeps
pub mod Outcome
pub mod Objects
