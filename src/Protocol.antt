-- ===== src/Protocol.antt =====
-- packages/protocol: what an event may look like when it crosses the network boundary.
pub mod Boundary
pub mod Json
pub mod Envelope
pub mod Sanitizer
