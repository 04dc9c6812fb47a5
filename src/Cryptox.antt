-- ===== src/Cryptox.antt =====
-- internal/cryptox: the ciphers and the hash of WireGuard.
pub mod Words
pub mod Blake2s
pub mod Chacha
pub mod Digest
pub mod Stream
pub mod Framing
pub mod Sealing
pub mod Aead
