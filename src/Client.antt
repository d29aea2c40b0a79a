-- ===== src/Client.antt =====
-- src/client: what the client of a broker keeps.
pub mod Pending
pub mod Session
