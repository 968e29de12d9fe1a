-- ===== src/Rsa.antt =====
-- src/rsa: the padding of PKCS#1 v1.5, the operations with keys, and encryption.
pub mod Padding
pub mod Inner
pub mod Rsaes
mod Tests
