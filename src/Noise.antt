-- ===== src/Noise.antt =====
-- The noise package.
pub mod Cipher
pub mod Suite
pub mod Symmetric
pub mod Handshake
pub mod Transport
pub mod Tests
