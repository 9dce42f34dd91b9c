-- ===== src/Relay.antt =====
-- relay.py: the client of one allowlisted, DNS-pinned relay origin.
pub mod Origin
pub mod Call
pub mod Browse
pub mod Pinned
pub mod Public
