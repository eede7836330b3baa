-- ===== src/SourceMaps.antt =====
-- Source map uploads: apps/web/src/server/source-maps and apps/worker/src/source-maps.
pub mod Tables
pub mod Scope
pub mod Body
pub mod Reopen
pub mod Begin
pub mod Write
pub mod Validate
pub mod Ghost
pub mod Prepared
pub mod Invariant
pub mod Reach
pub mod Tests
