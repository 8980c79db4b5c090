-- ===== src/Scanners/Enrichment.antt =====
-- backend/src/scanners/common/enrichment.rs and backend/src/data: deducing the vendor and the type
-- of a device.
pub mod Loading
use oott.Prelude.{
  ℕ, ◌&&◌, Option, none, some, List, [], ◌∷◌, take, drop, length, leb, if◌then◌else◌, unwrap_or,
}
use oott.Prelude.Text.{Text, is_empty}
use oott.Prelude.Utf8.{begins_char, trim_end_matches}
use oott.Model.Device.{Device, new_device}
use oott.Utils.Network.{is_locally_administered}

-- The three databases of backend/data, as they are looked up, and the Unicode case mappings.
pub record Data : Type 0 where
  pub mac_vendors : Text → Option Text
  pub service_vendors : Text → Option Text
  pub vendor_device_types : Text → Option Text
  pub to_uppercase : Text → Text
  pub to_lowercase : Text → Text

-- `mac_vendor_finder::find`.
unfoldable pub find_mac_vendor : Data → Text → Text
find_mac_vendor env mac_prefix = unwrap_or [] (env.mac_vendors (env.to_uppercase mac_prefix))

-- `service_vendor_finder::normalize` and `find`: the vendor of the first service that has one.
unfoldable pub normalize_service : Data → Text → Text
unfolding trim_end_matches
normalize_service env service_type = env.to_lowercase (trim_end_matches b'.' service_type)

abbrev or_else : Option Text → Text → Text
or_else none rest = rest
or_else (some vendor) rest = vendor

unfoldable pub find_service_vendor : Data → List Text → Text
unfolding normalize_service
find_service_vendor env [] = []
find_service_vendor env (service_type ∷ rest) =
    or_else (env.service_vendors (normalize_service env service_type))
      (find_service_vendor env rest)

-- `vendor_device_type_finder::find`.
unfoldable pub find_device_type : Data → Text → Text
find_device_type env vendor = unwrap_or [] (env.vendor_device_types vendor)

-- `mac.get(0..8).unwrap_or("")`.
unfoldable pub mac_prefix : Text → Text
unfolding begins_char
mac_prefix mac = if leb 8 (length mac) && begins_char (drop 8 mac) then take 8 mac else []

-- The vendor that `build_device` deduces.
unfoldable pub deduce_vendor : Data → Text → List Text → Text
unfolding find_mac_vendor find_service_vendor mac_prefix is_locally_administered
deduce_vendor env mac service_hints =
    let vendor = find_mac_vendor env (mac_prefix mac) in
    if is_empty vendor && is_locally_administered mac
    then find_service_vendor env service_hints
    else vendor

-- `build_device`, at a reading of the clock.
unfoldable pub build_device : Data → ℕ → Text → Text → List Text → Option Text → Device
unfolding deduce_vendor find_device_type new_device
build_device env at mac ipv4 service_hints name =
    let vendor = deduce_vendor env mac service_hints in
    record (new_device mac ipv4 vendor at) {
      device_type = find_device_type env vendor;
      name = name;
    }
