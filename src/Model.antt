-- ===== src/Model.antt =====
-- The data model synced from the control plane: src/model.rs.
pub mod Raw
pub mod Egress
pub mod Policy
pub mod Snapshot
pub mod Decide
pub mod View
mod Tests
