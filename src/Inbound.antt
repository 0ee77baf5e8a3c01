-- ===== src/Inbound.antt =====
-- The inbound protocols, src/inbound.
pub mod Tuic
mod Tests
