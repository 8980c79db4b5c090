-- ===== src/Db/Devices/Pages.antt =====
-- The list of devices: what it holds, in which order, and how its count agrees.
use oott.Prelude.{ℕ, Bool, true, ◌≡◌, ◌↔◌, Option, List, keep, length, arith}
use mathlib.Core.List.{Perm}
use oott.Prelude.Int.{ℤ}
use oott.Prelude.Text.{Text}
use oott.Model.Device.{Device}
use oott.Db.State.{World, Env, Outcome}
use oott.Db.Sql.{order_by}
use oott.Db.Sorting.{order_by-Perm, order_by-IsOrdered}
use oott.Db.Devices.Listing.{
  DeviceFilters, build_device_filters, list_devices, count_devices, resolve_sort_column,
  resolve_sort_direction,
}
use oott.Db.Devices.Ordering.{
  matching, device_order, row_before_total, list_devices-page, Outcome_map,
}
use oott.Db.Devices.SortKeys.{AreInOrder, AreInOrder-IsOrdered}
use oott.Db.Devices.Wanted.{IsWanted, build_device_filters_iff, IsSlice, apply_paging-IsSlice}

count_devices-rows :
    (env : Env) (f : DeviceFilters) (w : World)
    → Outcome Unit (λ n. n ≡ length (matching env f w)) (count_devices env f w).0
unfolding count_devices
count_devices-rows env f w = ground arith

-- The rows that a test keeps are those that are wanted.
abbrev pub Selects : Env → DeviceFilters → (Device → Bool) → Type 0
Selects env f keeps = (d : Device) → (keeps d ≡ true) ↔ IsWanted env f d

-- A page of a list that holds exactly the wanted devices, each once, in the order asked for.
abbrev pub IsDevicePage :
    Env
    → DeviceFilters
    → Option Text
    → Option Text
    → Option ℤ
    → Option ℤ
    → World
    → List Device
    → Type 0
IsDevicePage env f sort_by sort_order page_offset page_limit w items =
    (keeps : Device → Bool) × (all : List Device) × Selects env f keeps
    × Perm all (keep keeps w.tables.devices)
    × AreInOrder env sort_by sort_order all
    × IsSlice page_offset page_limit all items

-- The number of the wanted devices.
abbrev pub IsCountOf : Env → DeviceFilters → World → ℕ → Type 0
IsCountOf env f w n =
    (keeps : Device → Bool) × Selects env f keeps × (n ≡ length (keep keeps w.tables.devices))

-- Whatever fails: a list of devices is the asked-for slice of a list that holds each stored device
-- that the filters want exactly once, and no other, by the column asked for (the time it was last
-- seen, if none or an unknown one is) up or down, and of one value by the MAC address, or the call
-- failed; and the count of the same filters is the number of these devices, or its call failed.
pub list_devices-IsDevicePage :
    (env : Env) (f : DeviceFilters) (sort_by sort_order : Option Text)
    (page_offset page_limit : Option ℤ) (w : World)
    → Outcome Unit
        (IsDevicePage env f sort_by sort_order page_offset page_limit w)
        (list_devices env f sort_by sort_order page_offset page_limit w).0
      × Outcome Unit (IsCountOf env f w) (count_devices env f w).0
list_devices-IsDevicePage env f sort_by sort_order page_offset page_limit w =
    let order = device_order env sort_by sort_order in
    let rows = matching env f w in
    let all = order_by order rows in
    let total =
      row_before_total env (resolve_sort_column sort_by) (resolve_sort_direction sort_order) in
    (
      Outcome_map _ (IsDevicePage env f sort_by sort_order page_offset page_limit w) _
          (λ items e. (
            build_device_filters env f,
            all,
            build_device_filters_iff env f,
            order_by-Perm order rows,
            AreInOrder-IsOrdered env sort_by sort_order all (order_by-IsOrdered order total rows),
            rw e (apply_paging-IsSlice page_offset page_limit all),
          ))
          (list_devices-page env f sort_by sort_order page_offset page_limit w),
      Outcome_map _ (IsCountOf env f w) _
          (λ n e. (build_device_filters env f, build_device_filters_iff env f, e))
          (count_devices-rows env f w),
    )
