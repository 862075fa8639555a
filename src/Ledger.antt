-- ===== src/Ledger.antt =====
-- crates/ledger: what is kept of a mission.
pub mod Events
