-- ===== src/Api.antt =====
-- internal/api: the parts of the panel's server that decide by state of their own.
pub mod Throttle
pub mod NotifyEvents
pub mod BackupSchedule
mod Tests
