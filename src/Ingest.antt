-- ===== src/Ingest.antt =====
-- The ingest service, services/ingest_worker: from a queued document to its chunks and embeddings.
pub mod Chunker
pub mod Embedder
pub mod Worker
mod Tests
