-- ===== src/Reverse.antt =====
-- The reverse hop's data plane, src/reverse.
pub mod Lines
pub mod Frame
pub mod Datagram
pub mod Udp
mod Tests
