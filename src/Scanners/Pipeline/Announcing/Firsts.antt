-- ===== src/Scanners/Pipeline/Announcing/Firsts.antt =====
-- Which sightings bring about the change that a device is new.
use oott.Prelude.{
  ℕ, Bool, true, false, ◌&&◌, ◌≡◌, refl, ◌∙◌, List, [], ◌∷◌, any, any-append, to_list, arith,
}
use oott.Prelude.Text.{Text, nocase_eq}
use oott.Model.Device.{Device}
use oott.Model.DeviceEvent.{
  DeviceEvent, DeviceEventType, DeviceEventScanner, DeviceChange, event_type_text, new_event,
}
use oott.Utils.Network.{normalize_mac}
use oott.Db.{World, Env, now, read_clock}
use oott.Db.DeviceEvents.{is_duplicate}
use oott.Events.{
  record_event, device_event, event_type_for, record_changes, record_known_device,
  record_new_device,
}
use oott.Events.Detection.{detect_known_device_changes}
use oott.Events.Deduplication.{window_start, stored_row, record_event_exact}
use oott.Events.Tables.{recorded}
use oott.Notify.Headlines.{new_ones}

-- Whether an event says that the device of a MAC address is new, and whether one is stored.
unfoldable pub is_first : Text → DeviceEvent → Bool
is_first m e =
    nocase_eq e.mac_address m
    && nocase_eq (event_type_text e.event_type) (event_type_text DeviceEventType.new_device)

abbrev pub heard : Text → World → Bool
heard m w = any (is_first m) w.tables.device_events

record_changes-new_ones :
    (env : Env) (d : Device) (s : DeviceEventScanner) (cs : List DeviceChange) (w : World)
    → new_ones cs ≡ []
    → new_ones (record_changes env d s cs w).0 ≡ []
unfolding record_changes
record_changes-new_ones env d s [] w h = refl
record_changes-new_ones env d s (DeviceChange.new a ∷ cs) w h = absurd (cc)
record_changes-new_ones env d s (DeviceChange.back_online a t ∷ cs) w h =
    let r = device_event env d (event_type_for (DeviceChange.back_online a t)) s w in
    let r₁ = record_event env r.0 r.1 in ground (arith, record_changes-new_ones env d s cs r₁.1 h)
record_changes-new_ones env d s (DeviceChange.changed a b i v ∷ cs) w h =
    let r = device_event env d (event_type_for (DeviceChange.changed a b i v)) s w in
    let r₁ = record_event env r.0 r.1 in ground (arith, record_changes-new_ones env d s cs r₁.1 h)

detect-new_ones :
    (threshold at : ℕ) (a b : Device) → new_ones (detect_known_device_changes threshold at a b) ≡ []
unfolding detect_known_device_changes
detect-new_ones threshold at a b = ground arith

-- A device that is known is never new.
pub record_known_device-new_ones :
    (env : Env) (a b : Device) (s : DeviceEventScanner) (w : World)
    → new_ones (record_known_device env a b s w).0 ≡ []
unfolding record_known_device
record_known_device-new_ones env a b s w =
    let r = device_event env b DeviceEventType.device_seen s w in
    let w₂ = (record_event env r.0 r.1).1 in
    let threshold = env.settings.notifications.notify_when_not_seen_for in
    record_changes-new_ones env b s (detect_known_device_changes threshold (now env w₂) a b)
      (read_clock w₂) (detect-new_ones threshold (now env w₂) a b)

-- A duplicate of the event of a new device is such an event.
any-implies :
    (p q : DeviceEvent → Bool) (es : List DeviceEvent)
    → ((e : DeviceEvent) → p e ≡ true → q e ≡ true)
    → any q es ≡ false
    → any p es ≡ false
any-implies p q [] sub h = refl
any-implies p q (e ∷ es) sub h = ground (arith, sub e, any-implies p q es sub)

duplicate-is_first :
    (env : Env) (m : Text) (s : DeviceEventScanner) (since : ℕ) (e : DeviceEvent)
    → is_duplicate env m s DeviceEventType.new_device since e ≡ true
    → is_first m e ≡ true
unfolding is_duplicate is_first
duplicate-is_first env m s since e h = ground arith

module _ (env : Env) (sound : (n : ℕ) → env.db_fails n ≡ false) where
  -- With no fault, a device that is stored for the first time is new, if no event has said so.
  pub record_new_device-new_ones :
      (d : Device) (s : DeviceEventScanner) (w : World)
      → heard (normalize_mac d.mac_address) w ≡ false
      → new_ones (to_list (record_new_device env d s w).0) ≡ d ∷ []
  unfolding record_new_device device_event new_event
  record_new_device-new_ones d s w h =
      let r = device_event env d DeviceEventType.new_device s w in
      let m = normalize_mac d.mac_address in
      let fresh =
        any-implies (is_duplicate env m s DeviceEventType.new_device (window_start env r.1))
          (is_first m) w.tables.device_events (duplicate-is_first env m s (window_start env r.1))
          h in
      ground (arith, record_event_exact env r.0 r.1 sound, fresh)

  -- An event of another device says nothing of this one.
  record_event-heard :
      (m : Text) (e : DeviceEvent) (w : World)
      → nocase_eq (normalize_mac e.mac_address) m ≡ false
      → heard m (record_event env e w).1 ≡ heard m w
  unfolding is_first
  record_event-heard m e w other = ground (
    arith,
    record_event_exact env e w sound,
    any-append (is_first m) w.tables.device_events (stored_row e w.tables.device_events ∷ []),
  )

  recorded-heard :
      (m : Text) (d : Device) (k : DeviceEventType) (s : DeviceEventScanner) (w : World)
      → nocase_eq (normalize_mac d.mac_address) m ≡ false
      → heard m (recorded env d k s w).1 ≡ heard m w
  unfolding device_event new_event
  recorded-heard m d k s w other =
      record_event-heard m (device_event env d k s w).0 (device_event env d k s w).1 other

  record_changes-heard :
      (m : Text) (d : Device) (s : DeviceEventScanner) (cs : List DeviceChange) (w : World)
      → nocase_eq (normalize_mac d.mac_address) m ≡ false
      → heard m (record_changes env d s cs w).1 ≡ heard m w
  unfolding record_changes
  record_changes-heard m d s [] w other = refl
  record_changes-heard m d s (c ∷ cs) w other =
      let r = recorded env d (event_type_for c) s w in
      ground (
        arith,
        recorded-heard m d (event_type_for c) s w other,
        record_changes-heard m d s cs r.1 other,
      )

  pub record_known_device-heard :
      (m : Text) (a b : Device) (s : DeviceEventScanner) (w : World)
      → nocase_eq (normalize_mac b.mac_address) m ≡ false
      → heard m (record_known_device env a b s w).1 ≡ heard m w
  unfolding record_known_device
  record_known_device-heard m a b s w other =
      let r = recorded env b DeviceEventType.device_seen s w in
      let threshold = env.settings.notifications.notify_when_not_seen_for in
      let cs = detect_known_device_changes threshold (now env r.1) a b in
      record_changes-heard m b s cs (read_clock r.1) other
      ∙ recorded-heard m b DeviceEventType.device_seen s w other

  pub record_new_device-heard :
      (m : Text) (d : Device) (s : DeviceEventScanner) (w : World)
      → nocase_eq (normalize_mac d.mac_address) m ≡ false
      → heard m (record_new_device env d s w).1 ≡ heard m w
  unfolding record_new_device
  record_new_device-heard m d s w other =
      let h = recorded-heard m d DeviceEventType.new_device s w other in ground (arith, h)
