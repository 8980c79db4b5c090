-- ===== src/Model.antt =====
-- The data of the back end (backend/src/model): devices, device events, notifications and push
-- tokens. Times are nanoseconds since the Unix epoch, and durations are nanoseconds.
pub mod Device
pub mod DeviceEvent
pub mod Notification
pub mod PushToken
pub mod Texts
