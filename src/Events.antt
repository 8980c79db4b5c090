-- ===== src/Events.antt =====
-- backend/src/events.rs: recording the events of a sighting, and what is worth a notification.
pub mod Detection
pub mod Deduplication
pub mod Duplicates
pub mod Changes
pub mod Tables
use oott.Prelude.{
  ℕ, ◌-◌, Bool, true, false, Option, none, some, List, [], ◌∷◌, if◌then◌else◌, unwrap_or,
}
use oott.Prelude.Text.{Text}
use oott.Model.Device.{Device}
use oott.Model.DeviceEvent.{
  DeviceEvent, DeviceEventType, DeviceEventScanner, DeviceChange, new_event, new_device,
  device_seen, device_changed, device_back_online, back_online, changed,
}
use oott.Db.{World, Env, DbError, Result, ok, err, now, read_clock}
use oott.Db.DeviceEvents.{recent_duplicate_exists, insert}
use Detection.{detect_known_device_changes}

-- `device_event`, at the time that its reading of the clock gives.
unfoldable pub device_event :
    Env → Device → DeviceEventType → DeviceEventScanner → World → DeviceEvent × World
unfolding new_event
device_event env device event_type scanner w = (
  new_event device.mac_address (now env w) event_type device.ipv4_address device.vendor scanner,
  read_clock w,
)

-- `event_type_for`.
unfoldable pub event_type_for : DeviceChange → DeviceEventType
event_type_for (DeviceChange.new device) = new_device
event_type_for (back_online device absent_for) = device_back_online
event_type_for (changed existing sighted ip vendor) = device_changed

-- The insertion, whose error is only logged.
unfoldable pub store_event : Env → DeviceEvent → World → Bool × World
store_event env event w = (true, (insert env event w).1)

-- What the answer of the deduplication check leads to: an error records the event, too.
unfoldable pub after_check : Env → DeviceEvent → Result DbError Bool × World → Bool × World
unfolding store_event
after_check env event (ok true, w) = (false, w)
after_check env event (ok false, w) = store_event env event w
after_check env event (err e, w) = store_event env event w

-- `record_event`.
unfoldable pub record_event : Env → DeviceEvent → World → Bool × World
unfolding after_check
record_event env event w =
    let window = env.settings.device_events.deduplication_window in
    let since = now env w - unwrap_or 0 (env.from_std window) in
    after_check env event (
      recent_duplicate_exists env event.mac_address event.scanner event.event_type since
        (read_clock w))

abbrev new_change : Device → Bool × World → Option DeviceChange × World
new_change device (false, w) = (none, w)
new_change device (true, w) = (some (DeviceChange.new device), w)

-- `record_new_device`.
unfoldable pub record_new_device :
    Env → Device → DeviceEventScanner → World → Option DeviceChange × World
unfolding device_event
record_new_device env device scanner w =
    let (event, w') = device_event env device new_device scanner w in
    new_change device (record_event env event w')

abbrev keep_change : DeviceChange → Bool → List DeviceChange × World → List DeviceChange × World
keep_change change true (changes, w) = (change ∷ changes, w)
keep_change change false (changes, w) = (changes, w)

-- The filter of `record_known_device`: a change is kept if its event was recorded.
unfoldable pub record_changes :
    Env → Device → DeviceEventScanner → List DeviceChange → World → List DeviceChange × World
unfolding device_event event_type_for
record_changes env sighted scanner [] w = ([], w)
record_changes env sighted scanner (change ∷ changes) w =
    let (event, w₁) = device_event env sighted (event_type_for change) scanner w in
    let (recorded, w₂) = record_event env event w₁ in
    keep_change change recorded (record_changes env sighted scanner changes w₂)

-- `record_known_device`: the heartbeat first, then each change that was detected.
unfoldable pub record_known_device :
    Env → Device → Device → DeviceEventScanner → World → List DeviceChange × World
unfolding device_event record_changes detect_known_device_changes
record_known_device env existing sighted scanner w =
    let (heartbeat, w₁) = device_event env sighted device_seen scanner w in
    let (_, w₂) = record_event env heartbeat w₁ in
    let changes =
      detect_known_device_changes env.settings.notifications.notify_when_not_seen_for (now env w₂)
        existing sighted in
    record_changes env sighted scanner changes (read_clock w₂)
