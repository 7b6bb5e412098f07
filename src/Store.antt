-- ===== src/Store.antt =====
-- internal/store: the tables of the daemon's database and the operations on them.
pub mod Text
pub mod Model
pub mod Db
pub mod Tables
pub mod Migrate
pub mod Rules
pub mod Rows
pub mod Peers
pub mod Tunnels
mod Tests
