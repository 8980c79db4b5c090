-- ===== src/Scanners/Enrichment/Loading.antt =====
-- backend/src/data: the databases of vendors and device types, loaded from what `serde_json` reads of
-- the files of backend/data.
pub mod Vendors
use oott.Prelude.{
  Bool, true, false, not, ◌&&◌, ◌≡◌, refl, ◌∙◌, Option, none, some, List, [], ◌∷◌, ◌++◌, first,
  arith, if◌then◌else◌, unwrap_or,
}
use mathlib.Core.List.{reverse}
use mathlib.Core.Option
use oott.Prelude.Text.{Text, text_eq, is_empty}
use oott.Utils.Network.{is_locally_administered}
use oott.Prelude.Utf8.{trim_end_matches}
use oott.Scanners.Enrichment.{
  Data, find_mac_vendor, normalize_service, find_service_vendor, mac_prefix, deduce_vendor,
}

-- A `HashMap` of texts as it is looked up; an insertion replaces the value of its key.
abbrev pub TextMap : Type 0
TextMap = Text → Option Text

unfoldable pub insert : Text → Text → TextMap → TextMap
unfolding text_eq
insert key value m = λ k. if text_eq key k then some value else m k

pub record MacRecord : Type 0 where
  pub mac_prefix : Text
  pub vendor_name : Text

-- The loop that fills `MAC_VENDORS_DATABASE`.
unfoldable pub fill : (Text → Text) → List MacRecord → TextMap → TextMap
unfolding insert
fill to_uppercase [] database = database
fill to_uppercase (el ∷ json) database =
    fill to_uppercase json (insert (to_uppercase el.mac_prefix) el.vendor_name database)

-- Collecting pairs into a `HashMap`, in the order in which they come.
unfoldable pub collect : (Text → Text) → List (Text × Text) → TextMap → TextMap
unfolding insert
collect key [] database = database
collect key ((k, v) ∷ rest) database = collect key rest (insert (key k) v database)

abbrev pub no_entries : TextMap
no_entries k = none

-- What is read of the three files; the pairs of a file come in any order.
pub record Files : Type 0 where
  pub mac_vendors : Option (List MacRecord)
  pub service_vendors : Option (List (Text × Text))
  pub vendor_device_types : Option (List (Text × Text))

-- The databases as they are first used. `none` is the panic of a file that cannot be parsed.
abbrev pub service_key : (Text → Text) → Text → Text
service_key to_lowercase service_type = to_lowercase (trim_end_matches b'.' service_type)

abbrev keep_key : Text → Text
keep_key k = k

unfoldable pub mac_vendors_database : (Text → Text) → Option (List MacRecord) → Option TextMap
unfolding fill
mac_vendors_database to_uppercase json =
    Option.map (λ records. fill to_uppercase records no_entries) json

unfoldable pub service_vendor_database :
    (Text → Text) → Option (List (Text × Text)) → Option TextMap
unfolding collect trim_end_matches
service_vendor_database to_lowercase json =
    Option.map (λ raw. collect (service_key to_lowercase) raw no_entries) json

unfoldable pub vendor_device_type_database : Option (List (Text × Text)) → Option TextMap
unfolding collect
vendor_device_type_database json = Option.map (λ raw. collect keep_key raw no_entries) json

abbrev gather :
    (Text → Text) → (Text → Text) → TextMap → Option TextMap → Option TextMap → Option Data
gather to_uppercase to_lowercase macs (some services) (some types) = some (record {
  mac_vendors = macs;
  service_vendors = services;
  vendor_device_types = types;
  to_uppercase = to_uppercase;
  to_lowercase = to_lowercase;
})
gather to_uppercase to_lowercase macs _ _ = none

abbrev gather_all :
    (Text → Text) → (Text → Text) → Option TextMap → Option TextMap → Option TextMap → Option Data
gather_all to_uppercase to_lowercase none services types = none
gather_all to_uppercase to_lowercase (some macs) services types =
    gather to_uppercase to_lowercase macs services types

-- The three databases together. The order in which they are loaded, each at its first use, makes no
-- difference where all can be parsed.
unfoldable pub load : (Text → Text) → (Text → Text) → Files → Option Data
unfolding mac_vendors_database service_vendor_database vendor_device_type_database
load to_uppercase to_lowercase files =
    gather_all to_uppercase to_lowercase (mac_vendors_database to_uppercase files.mac_vendors)
      (service_vendor_database to_lowercase files.service_vendors)
      (vendor_device_type_database files.vendor_device_types)
