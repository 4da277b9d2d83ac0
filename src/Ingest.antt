-- ===== src/Ingest.antt =====
-- The ingestion of infrastructure logs: business/sdk/ingest and app/domain/ingestapp.
pub mod Record
pub mod Logfmt
pub mod Body
pub mod Pipeline
