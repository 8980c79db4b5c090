-- ===== src/Model/Device.antt =====
-- backend/src/model/devices.rs: a device, and the counts of the summary.
use oott.Prelude.{ℕ, Bool, false, Option, none, [], List}
use oott.Prelude.Text.{Text, text_eq}

pub record Device : Type 0 where
  pub mac_address : Text
  pub ipv4_address : Text
  pub vendor : Text
  pub last_seen : ℕ
  pub is_registered : Bool
  pub owner : Text
  pub device_type : Text
  pub name : Option Text

pub record DeviceSummary : Type 0 where
  pub total_registered : ℕ
  pub seen_last_day_registered : ℕ
  pub seen_last_day_unregistered : ℕ
  pub seen_last_week_registered : ℕ
  pub seen_last_week_unregistered : ℕ

-- A page of devices, and the number of devices that match the filters.
pub record DeviceListResponse : Type 0 where
  pub items : List Device
  pub total_count : ℕ

-- `Device::new`: an unregistered device with no owner, type or name.
unfoldable pub new_device : Text → Text → Text → ℕ → Device
new_device mac_address ipv4_address vendor last_seen = record {
  mac_address = mac_address;
  ipv4_address = ipv4_address;
  vendor = vendor;
  last_seen = last_seen;
  is_registered = false;
  owner = [];
  device_type = [];
  name = none;
}

-- `PartialEq for Device`.
unfoldable pub device_eq : Device → Device → Bool
device_eq a b = text_eq a.mac_address b.mac_address
