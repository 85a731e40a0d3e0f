-- ===== src/Crypto.antt =====
-- include/neon/crypto.hpp and include/neon/merkle.hpp.
pub mod Sha
pub mod Hmac
pub mod Merkle
