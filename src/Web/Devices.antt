-- ===== src/Web/Devices.antt =====
-- backend/src/web_server/devices.rs and device_events.rs: the handlers for devices.
pub mod Registration
use oott.Prelude.{ℕ, Option, none, some, List, if◌then◌else◌}
use oott.Prelude.Int.{ℤ}
use oott.Prelude.Text.{Text, bytes}
use oott.Model.Device.{Device, DeviceListResponse, DeviceSummary}
use oott.Model.DeviceEvent.{DeviceEvent}
use oott.Db.{World, Env, DbError, Result, ok, err}
use oott.Db.Devices as Store
use oott.Db.Devices.Listing.{DeviceFilters, list_devices, count_devices, get_summary}
use oott.Db.DeviceEvents as Events
use oott.Web.Http.{
  success, created, not_found, conflict, internal_server_error, Reply, Answer, json, failed,
}

pub record RegisterDevicePayload : Type 0 where
  pub mac_address : Text
  pub owner : Text
  pub device_type : Text
  pub name : Option Text

pub record UpdateDevicePayload : Type 0 where
  pub owner : Text
  pub device_type : Text
  pub vendor : Text
  pub name : Option Text

-- The answer to the result of an operation on the database.
abbrev pub reply_to : {A : Type 0} → Reply → Text → Result DbError A × World → Reply × World
reply_to reply message (ok a, w) = (reply, w)
reply_to reply message (err e, w) = ((internal_server_error, message), w)

abbrev pub answer_to : {A : Type 0} → Result DbError A × World → Answer A × World
answer_to (ok a, w) = (json a, w)
answer_to (err e, w) = (failed internal_server_error, w)

abbrev pub device_missing : Reply
device_missing = (not_found, bytes "Device not found or could not be read")

abbrev pub update_failed : Text
update_failed = bytes "Error updating device in the server, check your logs"

unfoldable pub register_found : Env → RegisterDevicePayload → Option Device × World → Reply × World
register_found env payload (none, w) = (device_missing, w)
register_found env payload (some device, w) =
    if device.is_registered
    then ((conflict, bytes "Device already registered"), w)
    else reply_to (created, bytes "Device registered")
        (bytes "Error registering device in the server, check your logs")
        (Store.register env payload.mac_address payload.owner payload.device_type payload.name w)

-- `register`.
unfoldable pub register : Env → RegisterDevicePayload → World → Reply × World
unfolding register_found Store.read Store.register
register env payload w = register_found env payload (Store.read env payload.mac_address w)

unfoldable pub update_found :
    Env → Text → UpdateDevicePayload → Option Device × World → Reply × World
update_found env mac payload (none, w) = (device_missing, w)
update_found env mac payload (some device, w) =
    if device.is_registered
    then reply_to (success, bytes "Device updated") update_failed
        (Store.update env mac payload.owner payload.device_type payload.vendor payload.name w)
    else ((conflict, bytes "Device is not registered, register it before modifying"), w)

-- `update`.
unfoldable pub update : Env → Text → UpdateDevicePayload → World → Reply × World
unfolding update_found Store.read Store.update
update env mac_address payload w =
    update_found env mac_address payload (Store.read env mac_address w)

unfoldable pub unregister_found : Env → Text → Option Device × World → Reply × World
unregister_found env mac (none, w) = (device_missing, w)
unregister_found env mac (some device, w) =
    if device.is_registered
    then reply_to (success, bytes "Device un-registered") update_failed (Store.unregister env mac w)
    else ((conflict, bytes "Device not registered, you cannot un-register it again"), w)

-- `unregister`.
unfoldable pub unregister : Env → Text → World → Reply × World
unfolding unregister_found Store.read Store.unregister
unregister env mac_address w = unregister_found env mac_address (Store.read env mac_address w)

unfoldable pub delete_found : Env → Text → Option Device × World → Reply × World
delete_found env mac (none, w) = (device_missing, w)
delete_found env mac (some device, w) =
    reply_to (success, bytes "Device permanently deleted")
      (bytes "Error deleting device in the server, check your logs") (Store.delete env mac w)

-- `delete`.
unfoldable pub delete : Env → Text → World → Reply × World
unfolding delete_found Store.read Store.delete
delete env mac_address w = delete_found env mac_address (Store.read env mac_address w)

abbrev found_answer : {A : Type 0} → Option A × World → Answer A × World
found_answer (none, w) = (failed not_found, w)
found_answer (some a, w) = (json a, w)

-- `read`.
unfoldable pub read : Env → Text → World → Answer Device × World
unfolding Store.read
read env mac_address w = found_answer (Store.read env mac_address w)

abbrev with_items : List Device → Result DbError ℕ × World → Answer DeviceListResponse × World
with_items items (ok n, w) = (json (record { items = items; total_count = n }), w)
with_items items (err e, w) = (failed internal_server_error, w)

unfoldable pub then_count :
    Env → DeviceFilters → Result DbError (List Device) × World → Answer DeviceListResponse × World
then_count env filters (err e, w) = (failed internal_server_error, w)
then_count env filters (ok items, w) = with_items items (count_devices env filters w)

-- `list`, with its parameters parsed.
unfoldable pub list :
    Env
    → DeviceFilters
    → Option Text
    → Option Text
    → Option ℤ
    → Option ℤ
    → World
    → Answer DeviceListResponse × World
unfolding then_count list_devices count_devices
list env filters sort_by sort_order page_offset page_limit w =
    then_count env filters (list_devices env filters sort_by sort_order page_offset page_limit w)

-- `summary`.
unfoldable pub summary : Env → World → Answer DeviceSummary × World
unfolding get_summary
summary env w = answer_to (get_summary env w)

-- `device_events::list`, with its parameters parsed.
unfoldable pub list_events :
    Env → Text → Option ℕ → Option ℤ → Option ℤ → World → Answer (List DeviceEvent) × World
unfolding Events.list
list_events env mac_address created_from page_offset page_limit w =
    answer_to (Events.list env (some mac_address) created_from page_offset page_limit w)
