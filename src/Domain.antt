-- ===== src/Domain.antt =====
-- crates/domain: the mission's data and its pure transitions.
pub mod Ids
pub mod Evidence
pub mod Route
pub mod Event
pub mod Contract
pub mod ReadModel
