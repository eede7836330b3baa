-- ===== src/Protocol/Sanitizer.antt =====
-- packages/protocol/src/index.ts, diagnostics.ts and releases.ts: what is kept of an event. Doubles,
-- the parser of URLs, decodeURIComponent, the replacements by regular expressions and the check of
-- a UUID are parameters; the expressions that only test a text are modelled.
pub mod Texts
pub mod Parts
pub mod Contexts
pub mod Event
pub mod Schema
pub mod Narrow
pub mod Sentry
pub mod Tests
