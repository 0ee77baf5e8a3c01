-- ===== src/Policy.antt =====
-- Routing rules and their index: src/policy/.
pub mod Trie
pub mod Domain
pub mod Ip
pub mod Rules
pub mod RouteIndex
