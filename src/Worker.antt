-- ===== src/Worker.antt =====
-- apps/worker: the processing of accepted events.
pub mod Inbox
pub mod History
pub mod Issue
pub mod Release
pub mod Process
pub mod Retention
