-- ===== src/Web.antt =====
-- backend/src/web_server: the handlers of the REST API, over the operations of the database.
pub mod Http
pub mod Auth
pub mod Access
pub mod Query
pub mod Requests
pub mod Devices
pub mod Notifications
pub mod PushTokens
pub mod ScannerStatus
