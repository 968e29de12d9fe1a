-- ===== src/Kdf.antt =====
-- src/kdf: HMAC-SHA-256 and PBKDF2.
pub mod Hmac
pub mod Pbkdf2
mod Tests
