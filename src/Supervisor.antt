-- ===== src/Supervisor.antt =====
-- crates/supervisor: the process that runs missions and holds their agents back.
pub mod Budgets
pub mod Loadouts
pub mod Resource
pub mod Service
pub mod Pause
pub mod Pipeline
pub mod Actor
pub mod Scheduler
