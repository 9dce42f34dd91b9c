-- ===== src/Service.antt =====
-- service.py: the domain service of the API.
pub mod Jobs
pub mod Accepted
pub mod Retry
