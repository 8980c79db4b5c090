-- ===== src/Db/Devices/Updates.antt =====
-- Reading, inserting and changing the rows of single devices.
use oott.Prelude.{
  ℕ, Bool, true, false, Option, none, some, List, [], ◌∷◌, ◌++◌, if◌then◌else◌, not, keep, any,
  length, update_where,
}
use oott.Prelude.Text.{Text, is_empty, nocase_eq}
use oott.Model.Device.{Device}
use oott.Utils.Network.{normalize_mac}
use oott.Db.State.{
  Tables, World, Env, DbError, parse_rusqlite, Result, ok, err, Db, get_db_connection, execute,
  transaction, utc_now, ◌>>=◌, ◌>>◌,
}

-- `WHERE mac_address=?`, over a column with the NOCASE collation.
abbrev pub has_mac : Text → Device → Bool
has_mac mac d = nocase_eq d.mac_address mac

-- `conn.query_one`: exactly one row, else an error.
unfoldable pub query_one : {A : Type 0} → List A → Result DbError A
query_one [] = err parse_rusqlite
query_one (x ∷ []) = ok x
query_one (x ∷ y ∷ r) = err parse_rusqlite

abbrev pub with_tables : {A : Type 0} → Tables → Result DbError A → Result DbError (A × Tables)
with_tables t (ok a) = ok (a, t)
with_tables t (err e) = err e

abbrev pub to_option : {A : Type 0} → Result DbError A × World → Option A × World
to_option (ok a, w) = (some a, w)
to_option (err e, w) = (none, w)

unfoldable pub try_read : Env → Text → Db Device
unfolding get_db_connection execute query_one
try_read env mac_address = do
  get_db_connection env
  execute env λ t. with_tables t (query_one (keep (has_mac (normalize_mac mac_address)) t.devices))

-- `read`: every error, and a device that is not there, are `None`.
unfoldable pub read : Env → Text → World → Option Device × World
unfolding try_read
read env mac_address w = to_option (try_read env mac_address w)

-- The INSERT, refused where the primary key is taken.
abbrev pub insert_row : Device → Tables → Result DbError (Unit {0} × Tables)
insert_row device t =
    if any (has_mac device.mac_address) t.devices
    then err parse_rusqlite
    else ok (tt, record t { devices = t.devices ++ device ∷ [] })

-- `insert`.
unfoldable pub insert : Env → Device → Db (Unit {0})
unfolding get_db_connection execute
insert env device = do
  get_db_connection env
  execute env (insert_row (record device { mac_address = normalize_mac device.mac_address }))

abbrev pub update_devices : Text → (Device → Device) → Tables → Result DbError (Unit {0} × Tables)
update_devices mac f t = ok (tt, record t { devices = update_where (has_mac mac) f t.devices })

abbrev pub or_stored : Option Text → Option Text → Option Text
or_stored (some name) stored = some name
or_stored none stored = stored

-- The SET clauses of `seen`: the vendor and the device type are written only where a vendor was
-- deduced, the type only over an empty one, and the name only where there is one.
unfoldable pub seen_row : ℕ → Text → Text → Text → Option Text → Device → Device
seen_row at ipv4_address vendor device_type name d = record d {
  ipv4_address = ipv4_address;
  last_seen = at;
  vendor = if is_empty vendor then d.vendor else vendor;
  device_type =
      if is_empty vendor
      then d.device_type
      else if is_empty d.device_type
      then device_type
      else d.device_type;
  name = or_stored name d.name;
}

-- `seen`.
unfoldable pub seen : Env → Text → Text → Text → Text → Option Text → Db (Unit {0})
unfolding get_db_connection execute utc_now
seen env mac_address ipv4_address vendor device_type name = do
  get_db_connection env
  at ← utc_now env
  execute env (
      update_devices (normalize_mac mac_address) (seen_row at ipv4_address vendor device_type name))

-- The SET clauses of `update`, `register` and `unregister`.
unfoldable pub updated_row : Text → Text → Text → Option Text → Device → Device
updated_row owner device_type vendor name d = record d {
  owner = owner;
  device_type = device_type;
  vendor = vendor;
  name = name;
}

unfoldable pub registered_row : Text → Text → Option Text → Device → Device
registered_row owner device_type name d = record d {
  is_registered = true;
  owner = owner;
  device_type = device_type;
  name = or_stored name d.name;
}

unfoldable pub unregistered_row : Device → Device
unregistered_row d = record d { is_registered = false; owner = [] }

-- `update`, for the fields that a user edits.
unfoldable pub update : Env → Text → Text → Text → Text → Option Text → Db (Unit {0})
unfolding get_db_connection execute
update env mac_address owner device_type vendor name = do
  get_db_connection env
  execute env
      (update_devices (normalize_mac mac_address) (updated_row owner device_type vendor name))

-- `register`.
unfoldable pub register : Env → Text → Text → Text → Option Text → Db (Unit {0})
unfolding get_db_connection execute
register env mac_address owner device_type name = do
  get_db_connection env
  execute env (update_devices (normalize_mac mac_address) (registered_row owner device_type name))

-- `unregister`.
unfoldable pub unregister : Env → Text → Db (Unit {0})
unfolding get_db_connection execute
unregister env mac_address = do
  get_db_connection env
  execute env (update_devices (normalize_mac mac_address) unregistered_row)

abbrev pub delete_events : Text → Tables → Result DbError (Unit {0} × Tables)
delete_events mac t =
    ok (
      tt,
      record t { device_events = keep (λ e. not (nocase_eq e.mac_address mac)) t.device_events },
    )

abbrev pub delete_devices : Text → Tables → Result DbError (ℕ × Tables)
delete_devices mac t = ok (
  length (keep (has_mac mac) t.devices),
  record t { devices = keep (λ d. not (has_mac mac d)) t.devices },
)

-- The body of the transaction of `delete`.
unfoldable pub delete_rows : Env → Text → Db ℕ
unfolding execute
delete_rows env mac = do execute env (delete_events mac); execute env (delete_devices mac)

-- `delete`.
unfoldable pub delete : Env → Text → Db ℕ
unfolding get_db_connection transaction delete_rows
delete env mac_address = do
  get_db_connection env
  transaction env (delete_rows env (normalize_mac mac_address))
