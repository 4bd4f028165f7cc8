-- ===== src/Memory.antt =====
-- services/memory_mcp: the notes of the vault and the slots of the agents.
pub mod Paths
pub mod Service
pub mod Slots
pub mod Similar
pub mod Notes
mod Tests
