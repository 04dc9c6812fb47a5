-- ===== src/Packet.antt =====
-- internal/packet/packet.go, a module for each group of its functions.
pub mod Parse
pub mod Rewrite
pub mod Tcp
pub mod Split
pub mod Fragment
pub mod Fragment6
