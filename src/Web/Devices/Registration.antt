-- ===== src/Web/Devices/Registration.antt =====
-- Registering, changing and un-registering a device through the API: when each is accepted, and
-- what a sequence of them answers.
use oott.Prelude.{
  ℕ, suc, true, false, ◌≡◌, ◌≢◌, ◌⊎◌, ap, ◌∙◌, Option, none, some, update_where, arith,
}
use oott.Prelude.Text.{Text}
use oott.Model.Device.{Device}
use oott.Utils.Network.{normalize_mac}
use oott.Db.{World, Env, Tables}
use oott.Db.Devices as Store
use oott.Db.Devices.{has_mac, registered_row, unregistered_row, updated_row}
use oott.Db.Devices.Reading.{row_of, read_unchanged, read_exact}
use oott.Web.Http.{StatusCode, success, created, not_found, conflict, Reply}
use oott.Web.Devices.{
  RegisterDevicePayload, UpdateDevicePayload, register, register_found, update, update_found,
  unregister, unregister_found,
}

-- The status of a handler's reply, and the tables behind it.
abbrev pub status : Reply × World → StatusCode
status r = r.0.0

abbrev pub tables : Reply × World → Tables
tables r = r.1.tables

-- The tables with a change of the device's row.
abbrev pub with_row : Text → (Device → Device) → Tables → Tables
with_row mac f t = record t { devices = update_where (has_mac (normalize_mac mac)) f t.devices }

-- What a handler that changes one row may do: change it and say so, or change no table.
abbrev pub ChangesRow : StatusCode → Text → (Device → Device) → World → Reply × World → Type 0
ChangesRow done mac f w r =
    ((status r ≡ done) × (tables r ≡ with_row mac f w.tables))
    ⊎ ((status r ≢ done) × (tables r ≡ w.tables))

-- The answer that a handler gives for the row that it finds.
abbrev pub register_status : Option Device → StatusCode
register_status none = not_found
register_status (some d) = elim d.is_registered [ true ↦ conflict | false ↦ created ]

abbrev pub registered_status : Option Device → StatusCode
registered_status none = not_found
registered_status (some d) = elim d.is_registered [ true ↦ success | false ↦ conflict ]

register_found-ChangesRow :
    (env : Env) (p : RegisterDevicePayload) (r : Option Device × World)
    → ChangesRow created p.mac_address
        (registered_row p.owner p.device_type p.name)
        r.1
        (register_found env p r)
unfolding register_found Store.register
register_found-ChangesRow env p (none, w) = ground arith
register_found-ChangesRow env p (some d, w) = ground arith

register_found-status :
    (env : Env) (p : RegisterDevicePayload) (r : Option Device × World)
    → ((n : ℕ) → env.db_fails n ≡ false)
    → status (register_found env p r) ≡ register_status r.0
unfolding register_found Store.register
register_found-status env p (none, w) sound = ground arith
register_found-status env p (some d, w) sound =
    ground (arith, sound w.db_calls, sound (suc w.db_calls))

update_found-ChangesRow :
    (env : Env) (mac : Text) (p : UpdateDevicePayload) (r : Option Device × World)
    → ChangesRow success mac
        (updated_row p.owner p.device_type p.vendor p.name)
        r.1
        (update_found env mac p r)
unfolding update_found Store.update
update_found-ChangesRow env mac p (none, w) = ground arith
update_found-ChangesRow env mac p (some d, w) = ground arith

update_found-status :
    (env : Env) (mac : Text) (p : UpdateDevicePayload) (r : Option Device × World)
    → ((n : ℕ) → env.db_fails n ≡ false)
    → status (update_found env mac p r) ≡ registered_status r.0
unfolding update_found Store.update
update_found-status env mac p (none, w) sound = ground arith
update_found-status env mac p (some d, w) sound =
    ground (arith, sound w.db_calls, sound (suc w.db_calls))

unregister_found-ChangesRow :
    (env : Env) (mac : Text) (r : Option Device × World)
    → ChangesRow success mac unregistered_row r.1 (unregister_found env mac r)
unfolding unregister_found Store.unregister
unregister_found-ChangesRow env mac (none, w) = ground arith
unregister_found-ChangesRow env mac (some d, w) = ground arith

unregister_found-status :
    (env : Env) (mac : Text) (r : Option Device × World)
    → ((n : ℕ) → env.db_fails n ≡ false)
    → status (unregister_found env mac r) ≡ registered_status r.0
unfolding unregister_found Store.unregister
unregister_found-status env mac (none, w) sound = ground arith
unregister_found-status env mac (some d, w) sound =
    ground (arith, sound w.db_calls, sound (suc w.db_calls))

-- A handler that first reads: its own change of the tables counts from before the reading.
ChangesRow-read :
    (done : StatusCode) (env : Env) (key mac : Text) (f : Device → Device) (w : World)
    (r : Reply × World)
    → ChangesRow done mac f (Store.read env key w).1 r
    → ChangesRow done mac f w r
ChangesRow-read done env key mac f w r h = ground (arith, read_unchanged env key w)

-- The three handlers, from the row that they read.
pub register-ChangesRow :
    (env : Env) (p : RegisterDevicePayload) (w : World)
    → ChangesRow created p.mac_address
        (registered_row p.owner p.device_type p.name)
        w
        (register env p w)
unfolding register
register-ChangesRow env p w =
    ChangesRow-read created env p.mac_address p.mac_address
      (registered_row p.owner p.device_type p.name) w
      (register_found env p (Store.read env p.mac_address w))
      (register_found-ChangesRow env p (Store.read env p.mac_address w))

pub update-ChangesRow :
    (env : Env) (mac : Text) (p : UpdateDevicePayload) (w : World)
    → ChangesRow success mac
        (updated_row p.owner p.device_type p.vendor p.name)
        w
        (update env mac p w)
unfolding update
update-ChangesRow env mac p w =
    ChangesRow-read success env mac mac (updated_row p.owner p.device_type p.vendor p.name) w
      (update_found env mac p (Store.read env mac w))
      (update_found-ChangesRow env mac p (Store.read env mac w))

pub unregister-ChangesRow :
    (env : Env) (mac : Text) (w : World)
    → ChangesRow success mac unregistered_row w (unregister env mac w)
unfolding unregister
unregister-ChangesRow env mac w =
    ChangesRow-read success env mac mac unregistered_row w
      (unregister_found env mac (Store.read env mac w))
      (unregister_found-ChangesRow env mac (Store.read env mac w))

-- Whatever fails: registering, changing and un-registering a device each either answer 201, 200 and
-- 200 and make their change of the device's row and no other change of the tables, or answer
-- otherwise and change no table.
pub handlers-ChangesRow :
    (env : Env) (mac : Text) (p : RegisterDevicePayload) (u : UpdateDevicePayload) (w : World)
    → ChangesRow created p.mac_address
        (registered_row p.owner p.device_type p.name)
        w
        (register env p w)
      × ChangesRow success mac
          (updated_row u.owner u.device_type u.vendor u.name)
          w
          (update env mac u w)
      × ChangesRow success mac unregistered_row w (unregister env mac w)
handlers-ChangesRow env mac p u w =
    (register-ChangesRow env p w, update-ChangesRow env mac u w, unregister-ChangesRow env mac w)

-- Where no call of the database fails, the answers are decided by the device's row: 404 where there
-- is none, and else 201 or 409 of `register` and 409 or 200 of `update` and `unregister`, by
-- whether the device is registered.
pub answers_exact :
    (env : Env) (mac : Text) (p : RegisterDevicePayload) (u : UpdateDevicePayload) (w : World)
    → ((n : ℕ) → env.db_fails n ≡ false)
    → (status (register env p w) ≡ register_status (row_of p.mac_address w))
      × (status (update env mac u w) ≡ registered_status (row_of mac w))
      × (status (unregister env mac w) ≡ registered_status (row_of mac w))
unfolding register update unregister
answers_exact env mac p u w sound = (
  register_found-status env p (Store.read env p.mac_address w) sound
      ∙ ap register_status (read_exact env p.mac_address w sound),
  update_found-status env mac u (Store.read env mac w) sound
      ∙ ap registered_status (read_exact env mac w sound),
  unregister_found-status env mac (Store.read env mac w) sound
      ∙ ap registered_status (read_exact env mac w sound),
)
