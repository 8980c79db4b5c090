-- ===== src/Db/Devices/Ordering.antt =====
-- The order of a list of devices is total, and what the list is of the matching devices.
use oott.Prelude.{Bool, true, ◌≡◌, refl, Option, none, some, List, ◌||◌, keep, arith}
use oott.Prelude.Int.{ℤ}
use oott.Prelude.Text.{Text, to_ascii_lowercase}
use oott.Model.Device.{Device}
use oott.Db.Sql.{order_by, apply_paging}
use oott.Db.State.{World, Env, Outcome, Result, ok, err}
use oott.Db.Sorting.{text_le_total}
use oott.Db.Devices.Listing.{
  SortColumn, name, owner, mac_address, ipv4_address, vendor, is_registered, device_type, last_seen,
  column_le, name_le, nocase_le, row_before, DeviceFilters, build_device_filters, list_devices,
  resolve_sort_column, resolve_sort_direction,
}

nocase_le_total : (s t : Text) → (nocase_le s t || nocase_le t s) ≡ true
nocase_le_total s t = text_le_total (to_ascii_lowercase s) (to_ascii_lowercase t)

name_le_total : (s t : Option Text) → (name_le s t || name_le t s) ≡ true
name_le_total none t = refl
name_le_total (some s) none = refl
name_le_total (some s) (some t) = nocase_le_total s t

column_le_total :
    (env : Env) (c : SortColumn) (a b : Device)
    → (column_le env c a b || column_le env c b a) ≡ true
unfolding column_le
column_le_total env name a b = name_le_total a.name b.name
column_le_total env owner a b = nocase_le_total a.owner b.owner
column_le_total env mac_address a b = nocase_le_total a.mac_address b.mac_address
column_le_total env ipv4_address a b = text_le_total a.ipv4_address b.ipv4_address
column_le_total env vendor a b = nocase_le_total a.vendor b.vendor
column_le_total env is_registered a b = ground arith
column_le_total env device_type a b = nocase_le_total a.device_type b.device_type
column_le_total env last_seen a b =
    text_le_total (env.to_rfc3339_nanos a.last_seen) (env.to_rfc3339_nanos b.last_seen)

pub row_before_total :
    (env : Env) (c : SortColumn) (ascending : Bool) (a b : Device)
    → (row_before env c ascending a b || row_before env c ascending b a) ≡ true
unfolding row_before
row_before_total env c ascending a b =
    let l = column_le_total env c a b in
    let m = nocase_le_total a.mac_address b.mac_address in ground (arith, l, m)

-- The devices that a request asks for, and their order.
abbrev pub matching : Env → DeviceFilters → World → List Device
matching env filters w = keep (build_device_filters env filters) w.tables.devices

abbrev pub device_order : Env → Option Text → Option Text → Device → Device → Bool
device_order env sort_by sort_order =
    row_before env (resolve_sort_column sort_by) (resolve_sort_direction sort_order)

pub list_devices-page :
    (env : Env) (f : DeviceFilters) (sort_by sort_order : Option Text)
    (page_offset page_limit : Option ℤ) (w : World)
    → Outcome Unit
        (λ items.
          items
          ≡ apply_paging page_offset page_limit
              (order_by (device_order env sort_by sort_order) (matching env f w)))
        (list_devices env f sort_by sort_order page_offset page_limit w).0
unfolding list_devices
list_devices-page env f sort_by sort_order page_offset page_limit w = ground arith

pub Outcome_map :
    {E A : Type 0} (P Q : A → Type 0) (r : Result E A)
    → ((a : A) → P a → Q a)
    → Outcome Unit P r
    → Outcome Unit Q r
Outcome_map P Q (ok a) f h = f a h
Outcome_map P Q (err e) f h = tt
