-- ===== src/Tests.antt =====
-- Tests of the model of storage.py, queue_worker.py and service.py on concrete inputs.
pub mod Samples
pub mod Jobs
pub mod Runs
pub mod Directory
pub mod Api
pub mod Pages
pub mod Bucket
pub mod Web
pub mod Release
pub mod Lost
