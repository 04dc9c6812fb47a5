-- ===== src/Tests.antt =====
-- Packets and states that the examples of the theorems run on.
pub mod Packets
pub mod Translation
pub mod Parsing
pub mod Tables
pub mod Fragments
pub mod Routing
pub mod Replays
pub mod Browsing
pub mod Decisions
pub mod Ciphers
pub mod Tunnel
pub mod Engine
