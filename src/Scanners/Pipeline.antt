-- ===== src/Scanners/Pipeline.antt =====
-- backend/src/scanners/common/pipeline.rs: one sighting, from the database to the changes that it
-- brought about.
pub mod Registration
pub mod Merging
pub mod Repeating
pub mod Silence
pub mod Announcing
use oott.Prelude.{ℕ, Option, none, some, List, [], to_list, if◌then◌else◌}
use oott.Prelude.Text.{Text, is_empty}
use oott.Model.Device.{Device}
use oott.Model.DeviceEvent.{DeviceChange, DeviceEventScanner}
use oott.Db.{World, Env, DbError, Result, ok, err}
use oott.Db.Devices.{read, seen, insert, or_stored}
use oott.Events.{record_known_device, record_new_device}
use oott.Notify.{notify}

-- The sighting of a known device with what the stored record adds to it.
unfoldable pub reconcile : Device → Device → Device
reconcile recorded device = record device {
  name = or_stored recorded.name device.name;
  ipv4_address =
      if is_empty device.ipv4_address then recorded.ipv4_address else device.ipv4_address;
  is_registered = recorded.is_registered;
  owner = recorded.owner;
  vendor = if is_empty device.vendor then recorded.vendor else device.vendor;
  device_type = if is_empty recorded.device_type then device.device_type else recorded.device_type;
}

-- The known device after `seen`: an error ends the sighting with no change.
unfoldable pub after_seen :
    Env
    → Device
    → Device
    → DeviceEventScanner
    → Result DbError (Unit {0}) × World
    → List DeviceChange × World
unfolding record_known_device
after_seen env recorded device scanner (err e, w) = ([], w)
after_seen env recorded device scanner (ok _, w) = record_known_device env recorded device scanner w

unfoldable pub after_insert :
    Env
    → Device
    → DeviceEventScanner
    → Result DbError (Unit {0}) × World
    → List DeviceChange × World
unfolding record_new_device
after_insert env device scanner (err e, w) = ([], w)
after_insert env device scanner (ok _, w) =
    let (change, w') = record_new_device env device scanner w in (to_list change, w')

unfoldable pub after_read :
    Env → Device → DeviceEventScanner → Option Device × World → List DeviceChange × World
unfolding reconcile seen insert after_seen after_insert
after_read env device scanner (some recorded, w) =
    let d = reconcile recorded device in
    after_seen env recorded d scanner
      (seen env d.mac_address d.ipv4_address d.vendor d.device_type d.name w)
after_read env device scanner (none, w) = after_insert env device scanner (insert env device w)

-- `record_sighting`.
unfoldable pub record_sighting :
    Env → Device → DeviceEventScanner → World → List DeviceChange × World
unfolding read after_read
record_sighting env device scanner w = after_read env device scanner (read env device.mac_address w)

-- `record_and_notify`.
unfoldable pub record_and_notify : Env → (ℕ → Text) → Device → DeviceEventScanner → World → World
unfolding record_sighting notify
record_and_notify env duration_text device scanner w =
    let (changes, w') = record_sighting env device scanner w in notify env duration_text changes w'
