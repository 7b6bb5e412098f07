-- ===== src/Ingress.antt =====
-- internal/ingressguard: which public listeners of the runtime are closed, and which configurations of
-- it may start.
pub mod Distinct
pub mod Endpoints
pub mod Manifest
pub mod Startup
pub mod Example
mod Tests
