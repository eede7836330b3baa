-- ===== src/Browser.antt =====
-- packages/browser: the SDK that sends errors from a page.
pub mod Dsn
pub mod Transport
