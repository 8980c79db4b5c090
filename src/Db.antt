-- ===== src/Db.antt =====
-- backend/src/db.rs and the tables of backend/database_migrations: the state of the program, and
-- the calls of the database, each of which can fail.
mod Sql
mod State
pub mod Chronology
pub mod Sorting
pub mod Devices
pub mod DeviceEvents
pub mod Notifications
pub mod Paging
pub mod Rows
pub mod PushTokens
unfoldable pub use State.*
unfoldable pub use Sql.*
