-- ===== src/Scanners/Pipeline/Announcing/Sighted.antt =====
-- What a sighting announces, and what it leaves of the events of other devices.
use oott.Prelude.{
  ℕ, suc, Bool, true, false, ◌≡◌, refl, sym, ap, ◌∙◌, Option, none, some, [], ◌∷◌, any, keep, arith,
  if◌then◌else◌,
}
use oott.Prelude.Text.{Text, nocase_eq}
use oott.Model.Device.{Device}
use oott.Model.DeviceEvent.{DeviceEventScanner}
use oott.Db.{World, Env, Result, ok, err, DbError}
use oott.Db.Devices.{read, seen, insert, has_mac}
use oott.Db.Devices.Reading.{only, row_of, read_exact, read_unchanged}
use oott.Notify.Headlines.{new_ones}
use oott.Scanners.Pipeline.{record_sighting, after_read, after_seen, after_insert, reconcile}
use oott.Scanners.Pipeline.Announcing.{known, key, insert-refuses, only_known}
use oott.Scanners.Pipeline.Announcing.Firsts.{
  is_first, heard, record_known_device-new_ones, record_new_device-new_ones,
  record_known_device-heard, record_new_device-heard,
}

after_seen-new_ones :
    (env : Env) (a d : Device) (s : DeviceEventScanner) (r : Result DbError (Unit {0}) × World)
    → new_ones (after_seen env a d s r).0 ≡ []
unfolding after_seen
after_seen-new_ones env a d s (err e, w) = refl
after_seen-new_ones env a d s (ok u, w) = record_known_device-new_ones env a d s w

insert-heard :
    (env : Env) (m : Text) (d : Device) (w : World) → heard m (insert env d w).1 ≡ heard m w
unfolding insert
insert-heard env m d w = ground arith

seen-heard :
    (env : Env) (m mac ip vendor kind : Text) (name : Option Text) (w : World)
    → heard m (seen env mac ip vendor kind name w).1 ≡ heard m w
unfolding seen
seen-heard env m mac ip vendor kind name w = ground arith

module _ (env : Env) (sound : (n : ℕ) → env.db_fails n ≡ false) where
  after_insert-new_ones :
      (d : Device) (s : DeviceEventScanner) (r : Result DbError (Unit {0}) × World) (was : Bool)
      → r.0 ≡ (if was then err DbError.parse_rusqlite else ok tt)
      → (was ≡ false → heard (key d) r.1 ≡ false)
      → new_ones (after_insert env d s r).0 ≡ (if was then [] else d ∷ [])
  unfolding after_insert
  after_insert-new_ones d s (ok u, w) true e h = absurd (cc)
  after_insert-new_ones d s (err x, w) true e h = refl
  after_insert-new_ones d s (err x, w) false e h = absurd (cc)
  after_insert-new_ones d s (ok u, w) false e h =
      record_new_device-new_ones env sound d s w (h refl)

  after_read-new_ones :
      (d : Device) (s : DeviceEventScanner) (found : Option Device) (w : World)
      → row_of d.mac_address w ≡ found
      → (known (key d) w ≡ false → heard (key d) w ≡ false)
      → new_ones (after_read env d s (found, w)).0 ≡ (if known (key d) w then [] else d ∷ [])
  unfolding after_read
  after_read-new_ones d s none w row h =
      after_insert-new_ones d s (insert env d w) (known (key d) w)
        (insert-refuses env d w (sound w.db_calls) (sound (suc w.db_calls)))
        (λ e. insert-heard env (key d) d w ∙ h e)
  after_read-new_ones d s (some a) w row h =
      let e = reconcile a d in
      after_seen-new_ones env a e s
        (seen env e.mac_address e.ipv4_address e.vendor e.device_type e.name w)
      ∙ ground (arith, only_known (key d) w.tables.devices a row)

  after_read-heard :
      (m : Text) (d : Device) (s : DeviceEventScanner) (found : Option Device) (w : World)
      → nocase_eq (key d) m ≡ false
      → heard m (after_read env d s (found, w)).1 ≡ heard m w
  unfolding after_read after_seen after_insert reconcile
  after_read-heard m d s none w other =
      let r = insert env d w in
      ground (arith, record_new_device-heard env sound m d s r.1 other, insert-heard env m d w)
  after_read-heard m d s (some a) w other =
      let e = reconcile a d in
      let r = seen env e.mac_address e.ipv4_address e.vendor e.device_type e.name w in
      let same = seen-heard env m e.mac_address e.ipv4_address e.vendor e.device_type e.name w in
      ground (arith, record_known_device-heard env sound m a e s r.1 other, same)

  -- The row that is read before and after the reading.
  row_read :
      (d : Device) (w : World)
      → row_of d.mac_address (read env d.mac_address w).1 ≡ (read env d.mac_address w).0
  row_read d w =
      ap (λ t. only (keep (has_mac (key d)) t.devices)) (read_unchanged env d.mac_address w).0
      ∙ sym (read_exact env d.mac_address w sound)

  -- With no fault, a sighting announces its device as new if it is not known, and nothing else.
  pub record_sighting-new_ones :
      (d : Device) (s : DeviceEventScanner) (w : World)
      → (known (key d) w ≡ false → heard (key d) w ≡ false)
      → new_ones (record_sighting env d s w).0 ≡ (if known (key d) w then [] else d ∷ [])
  unfolding record_sighting
  record_sighting-new_ones d s w h =
      let (found, w₁) = read env d.mac_address w in
      let same = (read_unchanged env d.mac_address w).0 in
      let known_then = ap (λ t. any (has_mac (key d)) t.devices) same in
      let heard_then = ap (λ t. any (is_first (key d)) t.device_events) same in
      after_read-new_ones d s found w₁ (row_read d w) (λ e. heard_then ∙ h (sym known_then ∙ e))
      ∙ ap (λ b. if b then [] else d ∷ []) known_then

  -- With no fault, a sighting stores no event of another device.
  pub record_sighting-heard :
      (m : Text) (d : Device) (s : DeviceEventScanner) (w : World)
      → nocase_eq (key d) m ≡ false
      → heard m (record_sighting env d s w).1 ≡ heard m w
  unfolding record_sighting
  record_sighting-heard m d s w other =
      let (found, w₁) = read env d.mac_address w in
      after_read-heard m d s found w₁ other
      ∙ ap (λ t. any (is_first m) t.device_events) (read_unchanged env d.mac_address w).0
