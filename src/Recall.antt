-- ===== src/Recall.antt =====
-- services/recall_mcp: the recall service.
pub mod Cache
pub mod Ranking
mod Tests
