-- ===== src/ObjectStore.antt =====
-- object_store.py: page and canary objects that are written once, under a lease fence.
pub mod Identity
pub mod Client
pub mod Writes
pub mod Canary
pub mod Immutable
pub mod Stored
pub mod Timestamp
pub mod Pages
