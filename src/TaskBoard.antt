-- ===== src/TaskBoard.antt =====
-- services/task_mcp: the task board and the registry of agents.
pub mod Store
pub mod Server
pub mod Agents
mod Tests
