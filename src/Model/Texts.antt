-- ===== src/Model/Texts.antt =====
-- The texts of the enumerations, which the tables and the API hold: each is read back as what it
-- was written from, and nothing else is read as it.
use oott.Prelude.{◌≡◌, ◌↔◌, some, arith}
use oott.Prelude.Text.{Text, bytes, text_eq_iff, to_ascii_lowercase}
use oott.Model.DeviceEvent.{
  DeviceEventType, event_type_text, parse_event_type, DeviceEventScanner, scanner_text,
  parse_scanner,
}
use oott.Model.PushToken.{PushPlatform, platform_text, parse_platform}

pub event_type_iff :
    (s : Text) (t : DeviceEventType) → (parse_event_type s ≡ some t) ↔ (s ≡ event_type_text t)
unfolding parse_event_type event_type_text
event_type_iff s t =
    let a = text_eq_iff s (bytes "NewDevice") in
    let b = text_eq_iff s (bytes "DeviceSeen") in
    let c = text_eq_iff s (bytes "DeviceChanged") in
    let d = text_eq_iff s (bytes "DeviceBackOnline") in ground (arith, a, b, c, d)

pub scanner_iff :
    (s : Text) (t : DeviceEventScanner) → (parse_scanner s ≡ some t) ↔ (s ≡ scanner_text t)
unfolding parse_scanner scanner_text
scanner_iff s t =
    let a = text_eq_iff s (bytes "ARP") in
    let b = text_eq_iff s (bytes "mDNS") in
    let c = text_eq_iff s (bytes "SSDP") in
    let d = text_eq_iff s (bytes "DHCP") in
    let e = text_eq_iff s (bytes "SNMP") in ground (arith, a, b, c, d, e)

-- The texts of events.
event_texts_iff :
    (s : Text) (t : DeviceEventType) (c : DeviceEventScanner)
    → ((parse_event_type s ≡ some t) ↔ (s ≡ event_type_text t))
      × ((parse_scanner s ≡ some c) ↔ (s ≡ scanner_text c))
event_texts_iff s t c = (event_type_iff s t, scanner_iff s c)

-- The text of a platform is read whatever the case of its letters.
platform_iff :
    (s : Text) (t : PushPlatform)
    → (parse_platform s ≡ some t) ↔ (to_ascii_lowercase s ≡ platform_text t)
unfolding parse_platform platform_text
platform_iff s t =
    let a = text_eq_iff (to_ascii_lowercase s) (bytes "android") in
    let b = text_eq_iff (to_ascii_lowercase s) (bytes "ios") in ground (arith, a, b)

-- A text is read as an event type or as a scanner exactly if it is the text that is written for it,
-- and as a platform exactly if it is the text of it but for the case of its letters.
pub texts_iff :
    (s : Text) (t : DeviceEventType) (c : DeviceEventScanner) (p : PushPlatform)
    → ((parse_event_type s ≡ some t) ↔ (s ≡ event_type_text t))
      × ((parse_scanner s ≡ some c) ↔ (s ≡ scanner_text c))
      × ((parse_platform s ≡ some p) ↔ (to_ascii_lowercase s ≡ platform_text p))
texts_iff s t c p = let (e, f) = event_texts_iff s t c in (e, f, platform_iff s p)
