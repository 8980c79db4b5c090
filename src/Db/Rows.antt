-- ===== src/Db/Rows.antt =====
-- The rows of the tables as SQLite holds them: what the statements of backend/src/db write into the
-- columns, and how the closures of their queries read them.
pub mod Reading
pub mod Typing
mod Columns
unfoldable pub use Columns.*
use oott.Prelude.{ℕ, Option, some}
use oott.Prelude.Int.{pos, pos_part}
use oott.Prelude.Text.{Text}
use oott.Model.Device.{Device}
use oott.Model.DeviceEvent.{DeviceEvent}
use oott.Model.Notification.{Notification}
use oott.Model.PushToken.{PushToken, PushPlatform}
use oott.Db.State.{Env}

-- The columns of the tables, in the order of the queries.
pub record EventRow : Type 0 where
  pub id : SqlValue
  pub mac_address : SqlValue
  pub created_on : SqlValue
  pub event_type : SqlValue
  pub ipv4_address : SqlValue
  pub vendor : SqlValue
  pub scanner : SqlValue

pub record DeviceRow : Type 0 where
  pub mac_address : SqlValue
  pub ipv4_address : SqlValue
  pub vendor : SqlValue
  pub last_seen : SqlValue
  pub is_registered : SqlValue
  pub owner : SqlValue
  pub device_type : SqlValue
  pub name : SqlValue

pub record NotificationRow : Type 0 where
  pub id : SqlValue
  pub created_on : SqlValue
  pub notification_type : SqlValue
  pub title : SqlValue
  pub body : SqlValue
  pub is_new : SqlValue
  pub mac_address : SqlValue

pub record TokenRow : Type 0 where
  pub id : SqlValue
  pub token : SqlValue
  pub platform : SqlValue
  pub created_on : SqlValue
  pub last_seen : SqlValue

-- What `INSERT` writes, with the rowid that SQLite gives.
unfoldable pub event_row : Env → ℕ → DeviceEvent → EventRow
unfolding event_type_value scanner_value
event_row env rowid e = record {
  id = integer (pos rowid);
  mac_address = text e.mac_address;
  created_on = text (env.to_rfc3339_nanos e.created_on);
  event_type = event_type_value e.event_type;
  ipv4_address = text e.ipv4_address;
  vendor = text e.vendor;
  scanner = scanner_value e.scanner;
}

unfoldable pub device_row : Env → Device → DeviceRow
device_row env d = record {
  mac_address = text d.mac_address;
  ipv4_address = text d.ipv4_address;
  vendor = text d.vendor;
  last_seen = text (env.to_rfc3339_nanos d.last_seen);
  is_registered = bool_value d.is_registered;
  owner = text d.owner;
  device_type = text d.device_type;
  name = text_value d.name;
}

unfoldable pub notification_row : Env → ℕ → Notification → NotificationRow
unfolding notification_type_value
notification_row env rowid n = record {
  id = integer (pos rowid);
  created_on = text (env.to_rfc3339_nanos n.created_on);
  notification_type = notification_type_value n.notification_type;
  title = text n.title;
  body = text n.body;
  is_new = bool_value n.is_new;
  mac_address = text_value n.mac_address;
}

unfoldable pub stored_token : Env → ℕ → Text → PushPlatform → ℕ → TokenRow
unfolding platform_value
stored_token env rowid token platform now = record {
  id = integer (pos rowid);
  token = text token;
  platform = platform_value platform;
  created_on = text (env.to_rfc3339_nanos now);
  last_seen = text (env.to_rfc3339_nanos now);
}

-- The closures of the queries. `parse_utc` is how `rusqlite` reads the text of a time.
module _ (parse_utc : Text → Option ℕ) where
  abbrev pub get_time : SqlValue → Option ℕ
  get_time v = get_text v >>= parse_utc

  unfoldable pub event_of_row : EventRow → Option DeviceEvent
  unfolding event_type_column scanner_column
  event_of_row r = do
    id ← get_integer r.id
    mac_address ← get_text r.mac_address
    created_on ← get_time r.created_on
    event_type ← event_type_column r.event_type
    ipv4_address ← get_text r.ipv4_address
    vendor ← get_text r.vendor
    scanner ← scanner_column r.scanner
    some (record {
      id = id_of id;
      mac_address = mac_address;
      created_on = created_on;
      event_type = event_type;
      ipv4_address = ipv4_address;
      vendor = vendor;
      scanner = scanner;
    })

  unfoldable pub device_of_row : DeviceRow → Option Device
  device_of_row r = do
    mac_address ← get_text r.mac_address
    ipv4_address ← get_text r.ipv4_address
    vendor ← get_text r.vendor
    last_seen ← get_time r.last_seen
    is_registered ← get_bool r.is_registered
    owner ← get_text r.owner
    device_type ← get_text r.device_type
    name ← get_nullable r.name
    some (record {
      mac_address = mac_address;
      ipv4_address = ipv4_address;
      vendor = vendor;
      last_seen = last_seen;
      is_registered = is_registered;
      owner = owner;
      device_type = device_type;
      name = name;
    })

  unfoldable pub notification_of_row : NotificationRow → Option Notification
  unfolding notification_type_column
  notification_of_row r = do
    id ← get_integer r.id
    created_on ← get_time r.created_on
    notification_type ← notification_type_column r.notification_type
    title ← get_text r.title
    body ← get_text r.body
    is_new ← get_bool r.is_new
    mac_address ← get_nullable r.mac_address
    some (record {
      id = id_of id;
      created_on = created_on;
      notification_type = notification_type;
      title = title;
      body = body;
      is_new = is_new;
      mac_address = mac_address;
    })

  unfoldable pub token_of_row : TokenRow → Option PushToken
  unfolding platform_column
  token_of_row r = do
    id ← get_integer r.id
    token ← get_text r.token
    platform ← platform_column r.platform
    created_on ← get_time r.created_on
    last_seen ← get_time r.last_seen
    some (record {
      id = pos_part id;
      token = token;
      platform = platform;
      created_on = created_on;
      last_seen = last_seen;
    })
