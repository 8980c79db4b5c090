-- ===== src/Db/Rows/Reading.antt =====
-- The rows that the program writes are read back as what they were written from, and a row of the
-- events is read exactly if its columns have their types.
use oott.Prelude.{ℕ, Bool, true, false, ◌≡◌, refl, Option, none, some, if◌then◌else◌}
use oott.Prelude.Int.{pos}
use oott.Prelude.Text.{Text}
use oott.Model.Device.{Device}
use oott.Model.DeviceEvent.{DeviceEvent, DeviceEventType, DeviceEventScanner}
use oott.Model.Notification.{
  Notification, NotificationType, notification_type_text, parse_notification_type,
}
use oott.Model.PushToken.{PushPlatform}
use oott.Db.State.{Env}
use oott.Db.Rows.{
  get_nullable, is_nonzero, text_value, event_type_column, scanner_column, platform_column,
  event_type_value, scanner_value, platform_value, event_row, device_row, notification_row,
  stored_token, event_of_row, device_of_row, notification_of_row, token_of_row,
}

event_type_back : (t : DeviceEventType) → event_type_column (event_type_value t) ≡ some t
unfolding event_type_column event_type_value
event_type_back DeviceEventType.new_device = refl
event_type_back DeviceEventType.device_seen = refl
event_type_back DeviceEventType.device_changed = refl
event_type_back DeviceEventType.device_back_online = refl

scanner_back : (s : DeviceEventScanner) → scanner_column (scanner_value s) ≡ some s
unfolding scanner_column scanner_value
scanner_back DeviceEventScanner.arp = refl
scanner_back DeviceEventScanner.mdns = refl
scanner_back DeviceEventScanner.ssdp = refl
scanner_back DeviceEventScanner.dhcp = refl
scanner_back DeviceEventScanner.snmp = refl

notification_type_back :
    (t : NotificationType) → parse_notification_type (notification_type_text t) ≡ t
unfolding parse_notification_type notification_type_text
notification_type_back NotificationType.new_device_found = refl
notification_type_back NotificationType.device_online_after_time = refl
notification_type_back NotificationType.device_changed = refl
notification_type_back NotificationType.other = refl

platform_back : (p : PushPlatform) → platform_column (platform_value p) ≡ some p
unfolding platform_column platform_value
platform_back PushPlatform.android = refl
platform_back PushPlatform.ios = refl

bool_back : (b : Bool) → is_nonzero (pos (if b then 1 else 0)) ≡ b
bool_back true = refl
bool_back false = refl

nullable_back : (o : Option Text) → get_nullable (text_value o) ≡ some o
nullable_back none = refl
nullable_back (some t) = refl

-- Every row that is written for an event, a device, a notification or a token is read back as what
-- it was written from, with the id that SQLite gave to it; where the text that is written for a time
-- is read as that time.
pub rows_back :
    (env : Env) (parse_utc : Text → Option ℕ) (rowid now : ℕ) (e : DeviceEvent) (d : Device)
    (n : Notification) (token : Text) (platform : PushPlatform)
    → ((t : ℕ) → parse_utc (env.to_rfc3339_nanos t) ≡ some t)
    → (event_of_row parse_utc (event_row env rowid e) ≡ some (record e { id = some rowid }))
      × (device_of_row parse_utc (device_row env d) ≡ some d)
      × (notification_of_row parse_utc (notification_row env rowid n)
          ≡ some (record n { id = some rowid }))
      × (token_of_row parse_utc (stored_token env rowid token platform now)
          ≡ some (record {
            id = rowid;
            token = token;
            platform = platform;
            created_on = now;
            last_seen = now;
          }))
unfolding event_of_row event_row device_of_row device_row notification_of_row notification_row
    token_of_row stored_token
rows_back env parse_utc rowid now e d n token platform times = (
  rw (times, event_type_back, scanner_back) refl,
  rw (times, bool_back, nullable_back) refl,
  rw (times, notification_type_back, bool_back, nullable_back) refl,
  rw (times, platform_back) refl,
)
