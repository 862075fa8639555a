-- ===== src/Policy.antt =====
-- crates/policy: what an agent may do, who approves it, and what it may spend.
pub mod Action
pub mod Engine
pub mod Envelope
pub mod Approval
pub mod Budget
