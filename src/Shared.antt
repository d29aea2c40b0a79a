-- ===== src/Shared.antt =====
-- src/shared: the constants.
pub mod Config
pub mod Reservations
