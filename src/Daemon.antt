-- ===== src/Daemon.antt =====
-- cmd/razdachad: the gate through which every routing policy is published.
pub mod World
pub mod Publish
pub mod Gate
pub mod Revocation
