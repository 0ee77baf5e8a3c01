-- ===== src/Subnetra.antt =====
-- The embedded overlay network: src/subnetra/. One module for each of its files that keeps state.
pub mod Crypto
pub mod Replay
pub mod Wire
pub mod Session
pub mod Config
pub mod Peer
mod Tests
