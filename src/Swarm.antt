-- ===== src/Swarm.antt =====
-- services/swarm_mcp
pub mod Outbox
pub mod Render
pub mod Prompt
pub mod Gateway
pub mod Deliver
pub mod Worker
pub mod Server
mod Tests
