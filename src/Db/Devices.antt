-- ===== src/Db/Devices.antt =====
-- backend/src/db/devices.rs: the operations on the devices table.
pub mod Keys
pub mod Laws
pub mod Reading
pub mod Listing
pub mod Filtering
pub mod Ordering
pub mod Wanted
pub mod SortKeys
pub mod Pages
mod Updates
unfoldable pub use Updates.*
