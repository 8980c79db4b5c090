-- ===== src/Web/Requests.antt =====
-- The handlers of the lists with their query parameters: `list` of devices.rs, device_events.rs and
-- notifications.rs of backend/src/web_server. `parse_from_rfc3339` is the `chrono` library's.
pub mod Answers
use oott.Prelude.{ℕ, Option, some, List}
use oott.Prelude.Text.{Text, bytes}
use oott.Model.Device.{DeviceListResponse}
use oott.Model.DeviceEvent.{DeviceEvent}
use oott.Model.Notification.{NotificationListResponse}
use oott.Db.{World, Env}
use oott.Db.Devices.Listing.{DeviceFilters}
use oott.Web.Http.{Answer}
use oott.Web.Query.{Params, parse_parameter, parse_parameter_date, parse_bool, parse_i64}
use oott.Web.Devices as Devices
use oott.Web.Notifications as Notifications

-- The filters of devices.rs, `list`.
unfoldable pub device_filters : (Text → Option ℕ) → Params → DeviceFilters
unfolding parse_parameter parse_parameter_date parse_bool
device_filters parse_from_rfc3339 params = record {
  is_registered = parse_parameter parse_bool params (bytes "is_registered");
  last_seen_from = parse_parameter_date parse_from_rfc3339 params (bytes "last_seen_from");
  last_seen_to = parse_parameter_date parse_from_rfc3339 params (bytes "last_seen_to");
  owner = parse_parameter some params (bytes "owner");
  device_type = parse_parameter some params (bytes "device_type");
  vendor = parse_parameter some params (bytes "vendor");
}

-- devices.rs, `list`.
unfoldable pub devices_list :
    Env → (Text → Option ℕ) → Params → World → Answer DeviceListResponse × World
unfolding device_filters parse_parameter parse_i64 Devices.list
devices_list env parse_from_rfc3339 params w =
    Devices.list env (device_filters parse_from_rfc3339 params)
      (parse_parameter some params (bytes "sort_by"))
      (parse_parameter some params (bytes "sort_order"))
      (parse_parameter parse_i64 params (bytes "page_offset"))
      (parse_parameter parse_i64 params (bytes "page_limit")) w

-- device_events.rs, `list`.
unfoldable pub device_events_list :
    Env → (Text → Option ℕ) → Text → Params → World → Answer (List DeviceEvent) × World
unfolding parse_parameter parse_parameter_date parse_i64 Devices.list_events
device_events_list env parse_from_rfc3339 mac_address params w =
    Devices.list_events env mac_address
      (parse_parameter_date parse_from_rfc3339 params (bytes "created_from"))
      (parse_parameter parse_i64 params (bytes "page_offset"))
      (parse_parameter parse_i64 params (bytes "page_limit")) w

-- notifications.rs, `list`.
unfoldable pub notifications_list : Env → Params → World → Answer NotificationListResponse × World
unfolding parse_parameter parse_bool parse_i64 Notifications.list
notifications_list env params w =
    Notifications.list env (parse_parameter parse_bool params (bytes "is_new"))
      (parse_parameter parse_i64 params (bytes "page_offset"))
      (parse_parameter parse_i64 params (bytes "page_limit")) w
