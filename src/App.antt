-- ===== src/App.antt =====
-- app.py: the API in front of the service.
pub mod Limiter
pub mod Access
pub mod Routes
