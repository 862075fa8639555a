-- ===== src/Memory.antt =====
-- crates/memory: what is remembered of a mission.
pub mod Item
pub mod Store
pub mod History
pub mod Audit
pub mod ContextPack
pub mod Packing
pub mod Recovery
pub mod Packages
pub mod Samples
