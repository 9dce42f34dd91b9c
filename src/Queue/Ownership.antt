-- ===== src/Queue/Ownership.antt =====
-- Who may change a leased row: the holder of its live token, and nobody else.
pub mod ById
pub mod Stale
pub mod Owner
pub mod Outcome
