-- ===== src/Ingress.antt =====
-- The relay protocol between a node and its public relay, src/ingress.
pub mod Datagram
pub mod Frame
pub mod Replies
mod Tests
