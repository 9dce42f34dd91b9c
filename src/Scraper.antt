-- ===== src/Scraper.antt =====
-- scraper.py: the PublicSearch and Tyler adapters.
pub mod Chunks
pub mod Session
pub mod Tables
pub mod Parse
pub mod Remote
pub mod TylerRows
pub mod Tyler
pub mod Adapter
pub mod Gives
pub mod Pages
