-- ===== src/Singbox.antt =====
-- internal/singbox: the configuration of the runtime.
pub mod PoolReject
