-- ===== src/Ingestion.antt =====
-- src/ingestion: content hash, shot repository, worker, outbox publisher and queue.
pub mod ContentHash
pub mod Redact
pub mod Repository
pub mod Queue
pub mod Processor
pub mod Outbox
pub mod Pipeline
