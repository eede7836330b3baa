-- ===== src/Web/Crypto.antt =====
-- apps/web/src/server/crypto.ts: the base32 text of a TOTP secret, and the check of a TOTP code. The
-- 32-bit registers of the source are written out: `<<` wraps at 2 ^ 32. A letter is its index in
-- `alphabet`.
pub mod Base32
pub mod Totp
pub mod Tests
