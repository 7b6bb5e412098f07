-- ===== src/Clash.antt =====
-- internal/clash: the client of the runtime's control interface.
pub mod Connections
pub mod ProbeBroker
