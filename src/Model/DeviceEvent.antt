-- ===== src/Model/DeviceEvent.antt =====
-- backend/src/model/device_events.rs: device events, their types and scanners with the text that
-- stands for them in the database, and the changes that a sighting can bring about.
use oott.Prelude.{ℕ, Bool, Option, none, some, if◌then◌else◌}
use oott.Prelude.Text.{Text, bytes, text_eq}
use oott.Model.Device.{Device}

pub data DeviceEventType : Type 0 where
  new_device device_seen device_changed device_back_online : DeviceEventType

pub data DeviceEventScanner : Type 0 where
  arp mdns ssdp dhcp snmp : DeviceEventScanner

-- The id that the database has not yet given (-1 in the source) is `none`.
pub record DeviceEvent : Type 0 where
  pub id : Option ℕ
  pub mac_address : Text
  pub created_on : ℕ
  pub event_type : DeviceEventType
  pub ipv4_address : Text
  pub vendor : Text
  pub scanner : DeviceEventScanner

-- `DeviceEvent::new`.
unfoldable pub new_event :
    Text → ℕ → DeviceEventType → Text → Text → DeviceEventScanner → DeviceEvent
new_event mac_address created_on event_type ipv4_address vendor scanner = record {
  id = none;
  mac_address = mac_address;
  created_on = created_on;
  event_type = event_type;
  ipv4_address = ipv4_address;
  vendor = vendor;
  scanner = scanner;
}

-- `Display`, which `ToSql` writes to the database.
unfoldable pub event_type_text : DeviceEventType → Text
event_type_text new_device = bytes "NewDevice"
event_type_text device_seen = bytes "DeviceSeen"
event_type_text device_changed = bytes "DeviceChanged"
event_type_text device_back_online = bytes "DeviceBackOnline"

-- `FromStr`, through which `FromSql` reads a column; `none` is the parse error.
unfoldable pub parse_event_type : Text → Option DeviceEventType
unfolding text_eq
parse_event_type s =
    if text_eq s (bytes "NewDevice")
    then some new_device
    else if text_eq s (bytes "DeviceSeen")
    then some device_seen
    else if text_eq s (bytes "DeviceChanged")
    then some device_changed
    else if text_eq s (bytes "DeviceBackOnline")
    then some device_back_online
    else none

unfoldable pub scanner_text : DeviceEventScanner → Text
scanner_text arp = bytes "ARP"
scanner_text mdns = bytes "mDNS"
scanner_text ssdp = bytes "SSDP"
scanner_text dhcp = bytes "DHCP"
scanner_text snmp = bytes "SNMP"

unfoldable pub parse_scanner : Text → Option DeviceEventScanner
unfolding text_eq
parse_scanner s =
    if text_eq s (bytes "ARP")
    then some arp
    else if text_eq s (bytes "mDNS")
    then some mdns
    else if text_eq s (bytes "SSDP")
    then some ssdp
    else if text_eq s (bytes "DHCP")
    then some dhcp
    else if text_eq s (bytes "SNMP")
    then some snmp
    else none

-- `DeviceChange`; the fields of the variants in their order.
pub data DeviceChange : Type 0 where
  new : Device → DeviceChange
  back_online : (device : Device) (absent_for : ℕ) → DeviceChange
  changed : (existing sighted : Device) (ip_changed vendor_changed : Bool) → DeviceChange
