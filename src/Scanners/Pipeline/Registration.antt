-- ===== src/Scanners/Pipeline/Registration.antt =====
-- A sighting never changes who a device is registered to.
use oott.Prelude.{
  Bool, ◌≡◌, refl, ap, ◌∙◌, Option, none, some, List, [], ◌∷◌, ◌++◌, map, arith, map-update_where,
  ◌⊎◌, inl,
}
use mathlib.Core.List.{map-append}
use mathlib.Core.Path.{subst}
use oott.Prelude.Text.{Text}
use oott.Model.Device.{Device}
use oott.Model.DeviceEvent.{DeviceEventScanner}
use oott.Utils.Network.{normalize_mac}
use oott.Db.{World, Env, Result, ok, err, DbError}
use oott.Db.Devices.{read, seen, insert, seen_row, has_mac}
use oott.Events.Tables.{record_known_device-SameBut, record_new_device-SameBut}
use oott.Scanners.Pipeline.{record_sighting, after_read, after_seen, after_insert, reconcile}

-- What registration decides of a device: its owner and whether it is registered, by its address.
abbrev pub registration : Device → Text × Bool × Text
registration d = (d.mac_address, d.is_registered, d.owner)

abbrev pub registrations : World → List (Text × Bool × Text)
registrations w = map registration w.tables.devices

seen-registrations :
    (env : Env) (mac ip vendor kind : Text) (name : Option Text) (w : World)
    → registrations (seen env mac ip vendor kind name w).1 ≡ registrations w
unfolding seen seen_row
seen-registrations env mac ip vendor kind name w = ground (
  arith,
  map-update_where registration (has_mac (normalize_mac mac))
      (seen_row (env.clock w.clock_reads) ip vendor kind name) (λ d. refl) w.tables.devices,
)

read-tables : (env : Env) (mac : Text) (w : World) → (read env mac w).1.tables ≡ w.tables
unfolding read
read-tables env mac w = ground (arith)

-- The device that `insert` adds for a sighting.
abbrev pub new_registration : Device → Text × Bool × Text
new_registration d = (normalize_mac d.mac_address, d.is_registered, d.owner)

-- A list of registrations that grew by nothing, or by that of a new device at its end.
abbrev pub IsGrown : Device → List (Text × Bool × Text) → List (Text × Bool × Text) → Type 0
IsGrown d before after = (after ≡ before) ⊎ (after ≡ before ++ new_registration d ∷ [])

insert-IsGrown :
    (env : Env) (d : Device) (w : World)
    → IsGrown d (registrations w) (registrations (insert env d w).1)
unfolding insert
insert-IsGrown env d w = ground (
  arith,
  map-append registration w.tables.devices
      (record d { mac_address = normalize_mac d.mac_address } ∷ []),
)

after_seen-registrations :
    (env : Env) (a d : Device) (s : DeviceEventScanner) (r : Result DbError (Unit {0}) × World)
    → registrations (after_seen env a d s r).1 ≡ registrations r.1
unfolding after_seen
after_seen-registrations env a d s (err e, w) = refl
after_seen-registrations env a d s (ok u, w) =
    ap (map registration) (record_known_device-SameBut env a d s w).devices

after_insert-registrations :
    (env : Env) (d : Device) (s : DeviceEventScanner) (r : Result DbError (Unit {0}) × World)
    → registrations (after_insert env d s r).1 ≡ registrations r.1
unfolding after_insert
after_insert-registrations env d s (err e, w) = refl
after_insert-registrations env d s (ok u, w) =
    ap (map registration) (record_new_device-SameBut env d s w).devices

after_read-IsGrown :
    (env : Env) (d : Device) (s : DeviceEventScanner) (r : Option Device × World)
    → IsGrown d (registrations r.1) (registrations (after_read env d s r).1)
unfolding after_read
after_read-IsGrown env d s (none, w) =
    ground (arith, insert-IsGrown env d w, after_insert-registrations env d s (insert env d w))
after_read-IsGrown env d s (some a, w) =
    let e = reconcile a d in
    let r = seen env e.mac_address e.ipv4_address e.vendor e.device_type e.name w in
    inl (
      after_seen-registrations env a e s r
      ∙ seen-registrations env e.mac_address e.ipv4_address e.vendor e.device_type e.name w)

-- Whatever fails, a sighting leaves the address, the owner and the registration of every stored
-- device as they were, in their order, and adds at most one device behind them: the one sighted.
pub record_sighting-registrations :
    (env : Env) (d : Device) (s : DeviceEventScanner) (w : World)
    → IsGrown d (registrations w) (registrations (record_sighting env d s w).1)
unfolding record_sighting
record_sighting-registrations env d s w =
    subst
      (λ t. IsGrown d (map registration t.devices) (registrations (record_sighting env d s w).1))
      (read-tables env d.mac_address w) (after_read-IsGrown env d s (read env d.mac_address w))
