-- ===== src/Scanners/Pipeline/Repeating.antt =====
-- A sighting that brings nothing new brings no change.
use oott.Prelude.{ℕ, ◌-◌, ◌<◌, false, ◌≡◌, refl, ap, ◌∙◌, Option, none, some, [], keep, arith}
use oott.Prelude.Text.{text_eq_refl}
use oott.Model.Device.{Device}
use oott.Model.DeviceEvent.{DeviceEventScanner, device_seen}
use oott.Utils.Network.{normalize_mac}
use oott.Db.{World, Env, read_clock, Result, ok, err, DbError}
use oott.Db.Devices.{read, seen, seen_row, has_mac}
use oott.Db.Devices.Reading.{row_of, only, read_exact, only-update}
use oott.Events.{record_known_device, record_changes, record_event, device_event}
use oott.Events.Detection.{detect_known_device_changes}
use oott.Scanners.Pipeline.{record_sighting, after_read, after_seen, reconcile}
use oott.Scanners.Pipeline.Merging.{sighted_row, sighted_row_of, record_sighting-IsMerged}

-- A row that a sighting has written, and the same sighting again before the threshold.
settled :
    (threshold at t : ℕ) (stored d : Device)
    → at - t < threshold
    → detect_known_device_changes threshold at
        (sighted_row t stored d)
        (reconcile (sighted_row t stored d) d)
      ≡ []
unfolding detect_known_device_changes reconcile seen_row
settled threshold at t stored d h = ground (
  arith,
  text_eq_refl d.ipv4_address,
  text_eq_refl stored.ipv4_address,
  text_eq_refl d.vendor,
  text_eq_refl stored.vendor,
)

record_known_device-quiet :
    (env : Env) (existing sighted : Device) (s : DeviceEventScanner) (w : World)
    → ((n : ℕ)
        → detect_known_device_changes env.settings.notifications.notify_when_not_seen_for
            (env.clock n)
            existing
            sighted
          ≡ [])
    → (record_known_device env existing sighted s w).0 ≡ []
unfolding record_known_device record_changes
record_known_device-quiet env existing sighted s w h =
    let heartbeat = device_event env sighted device_seen s w in
    let after = (record_event env heartbeat.0 heartbeat.1).1 in
    ap (λ cs. (record_changes env sighted s cs (read_clock after)).0) (h after.clock_reads)

sighted_row_of-mac :
    (t : ℕ) (stored d x : Device) → (sighted_row_of t stored d x).mac_address ≡ x.mac_address
unfolding seen_row
sighted_row_of-mac t stored d x = refl

after_seen-quiet :
    (env : Env) (existing sighted : Device) (s : DeviceEventScanner)
    (r : Result DbError (Unit {0}) × World)
    → ((n : ℕ)
        → detect_known_device_changes env.settings.notifications.notify_when_not_seen_for
            (env.clock n)
            existing
            sighted
          ≡ [])
    → (after_seen env existing sighted s r).0 ≡ []
unfolding after_seen
after_seen-quiet env existing sighted s (ok u, w) h =
    record_known_device-quiet env existing sighted s w h
after_seen-quiet env existing sighted s (err e, w) h = refl

after_read-quiet :
    (env : Env) (row d : Device) (s : DeviceEventScanner) (r : Option Device × World)
    → r.0 ≡ some row
    → ((n : ℕ)
        → detect_known_device_changes env.settings.notifications.notify_when_not_seen_for
            (env.clock n)
            row
            (reconcile row d)
          ≡ [])
    → (after_read env d s r).0 ≡ []
unfolding after_read
after_read-quiet env row d s (none, w) e h = ground arith
after_read-quiet env row d s (some a, w) e h =
    let same : a ≡ row = ground arith in
    let r = reconcile row d in
    rw same (
      after_seen-quiet env row r s
        (seen env r.mac_address r.ipv4_address r.vendor r.device_type r.name w) h)

-- Where no call of the database fails and all readings of the clock are within the threshold of
-- absence after the first sighting, a known device that is sighted twice with the same data brings
-- no change at the second sighting.
pub record_sighting_twice :
    (env : Env) (d : Device) (s s' : DeviceEventScanner) (w : World) (stored : Device)
    → ((n : ℕ) → env.db_fails n ≡ false)
    → row_of d.mac_address w ≡ some stored
    → ((n : ℕ)
        → env.clock n - env.clock w.clock_reads
          < env.settings.notifications.notify_when_not_seen_for)
    → (record_sighting env d s' (record_sighting env d s w).1).0 ≡ []
unfolding record_sighting
record_sighting_twice env d s s' w stored sound there close =
    let w' = (record_sighting env d s w).1 in
    let t = env.clock w.clock_reads in
    let found = read_exact env d.mac_address w sound ∙ there in
    let merged = (record_sighting-IsMerged env d s w stored sound found).0 in
    let row : row_of d.mac_address w' ≡ some (sighted_row t stored d) =
      ap (λ ds. only (keep (has_mac (normalize_mac d.mac_address)) ds)) merged
      ∙ only-update (normalize_mac d.mac_address) (sighted_row_of t stored d) w.tables.devices
          stored (sighted_row_of-mac t stored d) there in
    after_read-quiet env (sighted_row t stored d) d s' (read env d.mac_address w')
      (read_exact env d.mac_address w' sound ∙ row)
      (λ n.
        settled env.settings.notifications.notify_when_not_seen_for (env.clock n) t stored d
          (close n))
