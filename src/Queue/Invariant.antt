-- ===== src/Queue/Invariant.antt =====
-- What holds of the work queue between transactions: the columns of each row agree with its state,
-- ids and keys are unique, and a dead letter belongs to a dead row.
pub mod Evolve
pub mod Valid
pub mod Letters
pub mod Steps
pub mod Extends
pub mod Select
pub mod Operations
pub mod Failures
pub mod Insertions
