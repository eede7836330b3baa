-- ===== src/Ingest.antt =====
-- apps/ingest: the admission of error events over HTTP.
pub mod BucketLimiter
pub mod Http
pub mod Request
pub mod Deposit
pub mod Server
