-- ===== src/Db/Devices/Laws.antt =====
-- What inserting and deleting a device do to the tables, on every path.
use oott.Prelude.{
  ℕ, false, not, ◌≡◌, refl, [], ◌∷◌, ◌++◌, any, keep, length, arith, any-keep-not, Bool-cases, inl,
  inr,
}
use oott.Prelude.Text.{Text, nocase_eq}
use oott.Model.Device.{Device}
use oott.Model.DeviceEvent.{DeviceEvent}
use oott.Utils.Network.{normalize_mac}
use oott.Db.State.{Outcome, World, Env, Tables, transaction, called}
use oott.Db.Devices.Updates.{has_mac, insert, delete, delete_rows}

-- What `delete` promises of the tables before and after it.
pub record IsDeleted (mac : Text) (before after : Tables) (deleted : ℕ) : Type 0 where
  pub counted : deleted ≡ length (keep (has_mac mac) before.devices)
  pub no_device : any (has_mac mac) after.devices ≡ false
  pub no_event : any (λ e. nocase_eq e.mac_address mac) after.device_events ≡ false
  pub other_devices : after.devices ≡ keep (λ d. not (has_mac mac d)) before.devices
  pub other_events :
      after.device_events ≡ keep (λ e. not (nocase_eq e.mac_address mac)) before.device_events
  pub notifications : after.notifications ≡ before.notifications
  pub push_tokens : after.push_tokens ≡ before.push_tokens

-- The body of the transaction, and the transaction around it.
delete_in_transaction :
    (env : Env) (mac : Text) (w : World)
    → Outcome
        ((transaction env (delete_rows env mac) w).1.tables ≡ w.tables)
        (IsDeleted mac w.tables (transaction env (delete_rows env mac) w).1.tables)
        (transaction env (delete_rows env mac) w).0
unfolding delete_rows transaction
delete_in_transaction env mac w = ground (
  arith,
  any-keep-not (has_mac mac) w.tables.devices,
  any-keep-not {A = DeviceEvent} (λ e. nocase_eq e.mac_address mac) w.tables.device_events,
)

-- `delete` is atomic: it either fails and leaves every table as it was, or returns the number of
-- the device's rows and leaves none of them and no event of the device, all other devices and
-- events, and the other two tables as they were.
pub delete_atomic :
    (env : Env) (mac : Text) (w : World)
    → Outcome
        ((delete env mac w).1.tables ≡ w.tables)
        (IsDeleted (normalize_mac mac) w.tables (delete env mac w).1.tables)
        (delete env mac w).0
unfolding delete
delete_atomic env mac w = elim (Bool-cases (env.db_fails w.db_calls)) [
  | inl e ↦ rw e refl
  | inr e₁ ↦ rw e₁ (delete_in_transaction env (normalize_mac mac) (called w))
]

-- `insert` either fails and changes no table, or it found no row with the MAC address and adds the
-- device, its MAC address in lower case, behind the others.
pub insert_outcome :
    (env : Env) (d : Device) (w : World)
    → Outcome
        ((insert env d w).1.tables ≡ w.tables)
        (λ _.
          (any (has_mac (normalize_mac d.mac_address)) w.tables.devices ≡ false)
          × ((insert env d w).1.tables ≡ record w.tables {
            devices =
                w.tables.devices ++ record d { mac_address = normalize_mac d.mac_address } ∷ [];
          }))
        (insert env d w).0
unfolding insert
insert_outcome env d w = ground arith
