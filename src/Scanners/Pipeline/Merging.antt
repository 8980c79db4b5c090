-- ===== src/Scanners/Pipeline/Merging.antt =====
-- What a sighting writes into the row of a known device, and the changes it returns.
use oott.Prelude.{
  ℕ, suc, false, ◌≡◌, refl, ◌∙◌, Option, none, some, [], ◌∷◌, ◌⊎◌, update_where, arith,
}
use mathlib.Core.Path.{subst₂}
use oott.Prelude.Text.{Text}
use oott.Model.Device.{Device}
use oott.Model.DeviceEvent.{DeviceEventScanner}
use oott.Utils.Network.{normalize_mac}
use oott.Db.{World, Env, Result, ok, err, DbError}
use oott.Db.Devices.{read, seen, seen_row, has_mac}
use oott.Events.Tables.{record_known_device-SameBut}
use oott.Scanners.Pipeline.{record_sighting, after_read, after_seen, reconcile}

-- The change that the sighting `d` of the device `stored` makes to a row.
abbrev pub sighted_row_of : ℕ → Device → Device → Device → Device
sighted_row_of at stored d row =
    let r = reconcile stored d in seen_row at r.ipv4_address r.vendor r.device_type r.name row

-- The row of a known device after a sighting.
abbrev pub sighted_row : ℕ → Device → Device → Device
sighted_row at stored d = sighted_row_of at stored d stored

-- A text where it is not empty, else another; and the first name there is.
abbrev pub prefer : Text → Text → Text
prefer [] other = other
prefer (b ∷ t) other = b ∷ t

abbrev pub first_of : Option Text → Option Text → Option Text
first_of (some name) other = some name
first_of none other = other

-- What the stored row keeps, and what it takes from a sighting.
pub record IsMerged (at : ℕ) (stored d row : Device) : Type 0 where
  pub mac_address : row.mac_address ≡ stored.mac_address
  pub last_seen : row.last_seen ≡ at
  pub is_registered : row.is_registered ≡ stored.is_registered
  pub owner : row.owner ≡ stored.owner
  pub name : row.name ≡ first_of stored.name d.name
  pub ipv4_address : row.ipv4_address ≡ prefer d.ipv4_address stored.ipv4_address
  pub vendor : row.vendor ≡ prefer d.vendor stored.vendor
  pub device_type : (stored.device_type ≡ []) ⊎ (row.device_type ≡ stored.device_type)

name_merge :
    (stored d : Device) (at : ℕ) → (sighted_row at stored d).name ≡ first_of stored.name d.name
unfolding seen_row reconcile
name_merge stored d at = ground arith

address_merge :
    (stored d : Device) (at : ℕ)
    → (sighted_row at stored d).ipv4_address ≡ prefer d.ipv4_address stored.ipv4_address
unfolding seen_row reconcile
address_merge stored d at = ground arith

vendor_merge :
    (stored d : Device) (at : ℕ) → (sighted_row at stored d).vendor ≡ prefer d.vendor stored.vendor
unfolding seen_row reconcile
vendor_merge stored d at = ground arith

type_merge :
    (stored d : Device) (at : ℕ)
    → (stored.device_type ≡ []) ⊎ ((sighted_row at stored d).device_type ≡ stored.device_type)
unfolding seen_row reconcile
type_merge stored d at = ground arith

sighted_row-IsMerged : (at : ℕ) (stored d : Device) → IsMerged at stored d (sighted_row at stored d)
unfolding seen_row
sighted_row-IsMerged at stored d = record {
  mac_address = refl;
  last_seen = refl;
  is_registered = refl;
  owner = refl;
  name = name_merge stored d at;
  ipv4_address = address_merge stored d at;
  vendor = vendor_merge stored d at;
  device_type = type_merge stored d at;
}

-- The UPDATE of a sighting, where no call of the database fails.
pub seen-devices :
    (env : Env) (mac ip vendor kind : Text) (name : Option Text) (w : World)
    → ((n : ℕ) → env.db_fails n ≡ false)
    → ((seen env mac ip vendor kind name w).0 ≡ ok tt)
      × ((seen env mac ip vendor kind name w).1.tables.devices
          ≡ update_where
              (has_mac (normalize_mac mac))
              (seen_row (env.clock w.clock_reads) ip vendor kind name)
              w.tables.devices)
unfolding seen
seen-devices env mac ip vendor kind name w sound =
    ground (arith, sound w.db_calls, sound (suc w.db_calls))

after_seen-devices :
    (env : Env) (a d : Device) (s : DeviceEventScanner) (r : Result DbError (Unit {0}) × World)
    → (after_seen env a d s r).1.tables.devices ≡ r.1.tables.devices
unfolding after_seen
after_seen-devices env a d s (err e, w) = refl
after_seen-devices env a d s (ok u, w) = (record_known_device-SameBut env a d s w).devices

after_read-known :
    (env : Env) (d : Device) (s : DeviceEventScanner) (stored : Device) (r : Option Device × World)
    → ((n : ℕ) → env.db_fails n ≡ false)
    → r.0 ≡ some stored
    → (after_read env d s r).1.tables.devices
      ≡ update_where
          (has_mac (normalize_mac d.mac_address))
          (sighted_row_of (env.clock r.1.clock_reads) stored d)
          r.1.tables.devices
unfolding after_read reconcile
after_read-known env d s stored (none, w) sound h = ground arith
after_read-known env d s stored (some a, w) sound h =
    let r = reconcile stored d in
    let same : a ≡ stored = ground arith in
    rw same (
      after_seen-devices env stored r s
        (seen env r.mac_address r.ipv4_address r.vendor r.device_type r.name w)
      ∙ (seen-devices env r.mac_address r.ipv4_address r.vendor r.device_type r.name w sound).1)

read-state :
    (env : Env) (mac : Text) (w : World)
    → ((read env mac w).1.tables ≡ w.tables) × ((read env mac w).1.clock_reads ≡ w.clock_reads)
unfolding read
read-state env mac w = ground arith

-- Where no call of the database fails, a sighting of a device that `read` finds writes the merged
-- row into the device's row, at the time of the sighting, and changes no other device.
pub record_sighting-IsMerged :
    (env : Env) (d : Device) (s : DeviceEventScanner) (w : World) (stored : Device)
    → ((n : ℕ) → env.db_fails n ≡ false)
    → (read env d.mac_address w).0 ≡ some stored
    → ((record_sighting env d s w).1.tables.devices
        ≡ update_where
            (has_mac (normalize_mac d.mac_address))
            (sighted_row_of (env.clock w.clock_reads) stored d)
            w.tables.devices)
      × IsMerged
          (env.clock w.clock_reads)
          stored
          d
          (sighted_row_of (env.clock w.clock_reads) stored d stored)
unfolding record_sighting
record_sighting-IsMerged env d s w stored sound found = (
  subst₂
      (λ t n.
        (record_sighting env d s w).1.tables.devices
        ≡ update_where (has_mac (normalize_mac d.mac_address))
            (sighted_row_of (env.clock n) stored d) t.devices)
      (read-state env d.mac_address w).0 (read-state env d.mac_address w).1
      (after_read-known env d s stored (read env d.mac_address w) sound found),
  sighted_row-IsMerged (env.clock w.clock_reads) stored d,
)
