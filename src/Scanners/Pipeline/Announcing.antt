-- ===== src/Scanners/Pipeline/Announcing.antt =====
-- What a sighting does to the devices, and when it counts as the first of a device.
pub mod Firsts
pub mod Sighted
pub mod Once
use oott.Prelude.{
  ℕ, keep, suc, Bool, true, false, ◌&&◌, ◌||◌, not, ◌≡◌, refl, sym, ap, ◌∙◌, Option, none, some,
  List, [], ◌∷◌, ◌++◌, any, any-append, update_where, arith, Bool-cases, inl, inr, if◌then◌else◌,
}
use oott.Prelude.Text.{Text, nocase_eq, text_eq, text_eq_sound, to_ascii_lowercase}
use oott.Model.Device.{Device}
use oott.Model.DeviceEvent.{DeviceEventScanner}
use oott.Utils.Network.{normalize_mac}
use oott.Db.{World, Env, Result, ok, err, DbError}
use oott.Db.Devices.{read, seen, insert, seen_row, has_mac}
use oott.Db.Devices.Reading.{only, row_of, read_exact, read_unchanged}
use oott.Events.Tables.{record_known_device-SameBut, record_new_device-SameBut}
use oott.Scanners.Pipeline.{record_sighting, after_read, after_seen, after_insert, reconcile}

-- Whether the devices table has a row with a MAC address.
abbrev pub known : Text → World → Bool
known m w = any (has_mac m) w.tables.devices

any-update_where :
    (m : Text) (p : Device → Bool) (f : Device → Device) (ds : List Device)
    → ((d : Device) → (f d).mac_address ≡ d.mac_address)
    → any (has_mac m) (update_where p f ds) ≡ any (has_mac m) ds
any-update_where m p f [] same = refl
any-update_where m p f (d ∷ ds) same =
    ground (arith, any-update_where m p f ds same, ap (λ a. nocase_eq a m) (same d))

seen-known :
    (env : Env) (m mac ip vendor kind : Text) (name : Option Text) (w : World)
    → known m (seen env mac ip vendor kind name w).1 ≡ known m w
unfolding seen seen_row
seen-known env m mac ip vendor kind name w = ground (
  arith,
  any-update_where m (has_mac (normalize_mac mac))
      (seen_row (env.clock w.clock_reads) ip vendor kind name) w.tables.devices (λ d. refl),
)

after_seen-known :
    (env : Env) (m : Text) (a d : Device) (s : DeviceEventScanner)
    (r : Result DbError (Unit {0}) × World)
    → known m (after_seen env a d s r).1 ≡ known m r.1
unfolding after_seen
after_seen-known env m a d s (err e, w) = refl
after_seen-known env m a d s (ok u, w) =
    ap (any (has_mac m)) (record_known_device-SameBut env a d s w).devices

after_insert-known :
    (env : Env) (m : Text) (d : Device) (s : DeviceEventScanner)
    (r : Result DbError (Unit {0}) × World)
    → known m (after_insert env d s r).1 ≡ known m r.1
unfolding after_insert
after_insert-known env m d s (err e, w) = refl
after_insert-known env m d s (ok u, w) =
    ap (any (has_mac m)) (record_new_device-SameBut env d s w).devices

-- The name under which a sighting is stored.
abbrev pub key : Device → Text
key d = normalize_mac d.mac_address

-- The insertion adds the device's row, unless it is there, and fails exactly if it is.
pub insert-refuses :
    (env : Env) (d : Device) (w : World)
    → env.db_fails w.db_calls ≡ false
    → env.db_fails (suc w.db_calls) ≡ false
    → (insert env d w).0 ≡ (if known (key d) w then err DbError.parse_rusqlite else ok tt)
unfolding insert
insert-refuses env d w connected executed = ground arith

insert-known :
    (env : Env) (m : Text) (d : Device) (w : World)
    → ((n : ℕ) → env.db_fails n ≡ false)
    → known m (insert env d w).1 ≡ (known m w || (nocase_eq (key d) m && not (known (key d) w)))
unfolding insert
insert-known env m d w sound = ground (
  arith,
  sound w.db_calls,
  sound (suc w.db_calls),
  any-append (has_mac m) w.tables.devices (record d { mac_address = key d } ∷ []),
)

-- Texts that are the same up to case are the same as any third.
nocase_eq_trans : (x k m : Text) → nocase_eq k m ≡ true → nocase_eq x k ≡ nocase_eq x m
unfolding nocase_eq
nocase_eq_trans x k m h =
    ap (text_eq (to_ascii_lowercase x))
      (text_eq_sound (to_ascii_lowercase k) (to_ascii_lowercase m) h)

pub known_same : (k m : Text) (w : World) → nocase_eq k m ≡ true → known k w ≡ known m w
known_same k m w h = any_same w.tables.devices
  where
    any_same : (ds : List Device) → any (has_mac k) ds ≡ any (has_mac m) ds
    any_same [] = refl
    any_same (d ∷ ds) = ground (arith, nocase_eq_trans d.mac_address k m h, any_same ds)

pub only_known :
    (m : Text) (ds : List Device) (d : Device)
    → only (keep (has_mac m) ds) ≡ some d
    → any (has_mac m) ds ≡ true
only_known m [] d h = absurd (cc)
only_known m (e ∷ ds) d h = ground (arith, only_known m ds d)

only_unknown :
    (m : Text) (ds : List Device) → any (has_mac m) ds ≡ false → only (keep (has_mac m) ds) ≡ none
only_unknown m [] h = refl
only_unknown m (e ∷ ds) h = ground (arith, only_unknown m ds)

module _ (env : Env) (sound : (n : ℕ) → env.db_fails n ≡ false) (m : Text) where
  after_read-known :
      (d : Device) (s : DeviceEventScanner) (found : Option Device) (w : World)
      → row_of d.mac_address w ≡ found
      → known m (after_read env d s (found, w)).1 ≡ (known m w || nocase_eq (key d) m)
  unfolding after_read
  after_read-known d s none w row =
      after_insert-known env m d s (insert env d w)
      ∙ insert-known env m d w sound
      ∙ ground (arith, known_same (key d) m w)
  after_read-known d s (some a) w row =
      let e = reconcile a d in
      after_seen-known env m a e s
        (seen env e.mac_address e.ipv4_address e.vendor e.device_type e.name w)
      ∙ seen-known env m e.mac_address e.ipv4_address e.vendor e.device_type e.name w
      ∙ ground (arith, known_same (key d) m w, only_known (key d) w.tables.devices a row)

  -- With no fault, the devices known after a sighting are those known before and the one sighted.
  pub record_sighting-known :
      (d : Device) (s : DeviceEventScanner) (w : World)
      → known m (record_sighting env d s w).1 ≡ (known m w || nocase_eq (key d) m)
  unfolding record_sighting
  record_sighting-known d s w =
      let w₁ = (read env d.mac_address w).1 in
      let same = ap (λ t. t.devices) (read_unchanged env d.mac_address w).0 in
      let found = read_exact env d.mac_address w sound in
      after_read-known d s (read env d.mac_address w).0 w₁
        (ap (λ ds. only (keep (has_mac (key d)) ds)) same ∙ sym found)
      ∙ ap (λ ds. any (has_mac m) ds || nocase_eq (key d) m) same
