-- ===== src/Database.antt =====
-- storage.py: the transactions that touch more tables than the queue.
pub mod Tables
pub mod Context
pub mod Discovery
pub mod Scrape
pub mod Keeps
pub mod Progress
pub mod Repeat
pub mod Queued
