-- ===== src/Db/Devices/SortKeys.antt =====
-- The order that a request for devices asks for, by a text for each column.
use oott.Prelude.{
  ◌&&◌, ◌||◌, not, Bool, true, false, ◌≡◌, ◌≢◌, ◌⊎◌, inl, inr, refl, Option, none, some, List, [],
  ◌∷◌, arith, Bool-cases, if◌then◌else◌,
}
use mathlib.Core.Path.{subst}
use oott.Prelude.Text.{Text, bytes, text_eq, text_eq_iff, to_ascii_lowercase}
use oott.Model.Device.{Device}
use oott.Db.State.{Env}
use oott.Db.Sql.{text_le}
use oott.Db.Sorting.{text_le_total, text_le_antisym, IsOrdered}
use oott.Db.Devices.Listing.{
  SortColumn, column_le, row_before, resolve_sort_column, resolve_sort_direction, sort_column_of,
}
use oott.Db.Devices.Ordering.{device_order}

-- A name as a text that sorts as the column does: no name first.
abbrev name_key : Option Text → Text
name_key none = []
name_key (some s) = 1 ∷ to_ascii_lowercase s

abbrev flag_key : Bool → Text
flag_key false = 0 ∷ []
flag_key true = 1 ∷ []

-- The text by which a device is sorted, for each of the columns that may be asked for.
abbrev sort_keys : List (Text × (Device → Text))
sort_keys =
    (bytes "name", λ d. name_key d.name)
    ∷ (bytes "owner", λ d. to_ascii_lowercase d.owner)
    ∷ (bytes "mac_address", λ d. to_ascii_lowercase d.mac_address)
    ∷ (bytes "ipv4_address", λ d. d.ipv4_address)
    ∷ (bytes "vendor", λ d. to_ascii_lowercase d.vendor)
    ∷ (bytes "is_registered", λ d. flag_key d.is_registered)
    ∷ (bytes "device_type", λ d. to_ascii_lowercase d.device_type)
    ∷ []

abbrev key_named : Text → List (Text × (Device → Text)) → (Device → Text) → Device → Text
key_named s [] default d = default d
key_named s ((column, key) ∷ keys) default d =
    if text_eq s column then key d else key_named s keys default d

-- The key of a request's column, in any case; of none, and of an unknown one, it is the time.
abbrev pub sort_key : Env → Option Text → Device → Text
sort_key env none d = env.to_rfc3339_nanos d.last_seen
sort_key env (some s) d =
    key_named (to_ascii_lowercase s) sort_keys (λ e. env.to_rfc3339_nanos e.last_seen) d

-- Whether a request asks for the ascending order.
abbrev pub IsAscending : Option Text → Type 0
IsAscending none = ⊥
IsAscending (some s) = to_ascii_lowercase s ≡ bytes "asc"

-- A key stands before another, or they are the same and the MAC addresses are in order.
abbrev IsBefore : (first second : Text) → Device → Device → Type 0
IsBefore first second a b =
    ((first ≢ second) × (text_le first second ≡ true))
    ⊎ ((first ≡ second)
        × (text_le (to_ascii_lowercase a.mac_address) (to_ascii_lowercase b.mac_address) ≡ true))

-- Two devices in the order that a request asks for.
abbrev pub IsInOrder : Env → Option Text → Option Text → Device → Device → Type 0
IsInOrder env sort_by sort_order a b =
    (IsAscending sort_order → IsBefore (sort_key env sort_by a) (sort_key env sort_by b) a b)
    × ((IsAscending sort_order → ⊥)
        → IsBefore (sort_key env sort_by b) (sort_key env sort_by a) a b)

abbrev pub AreInOrder : Env → Option Text → Option Text → List Device → Type 0
AreInOrder env sort_by sort_order [] = Unit
AreInOrder env sort_by sort_order (a ∷ []) = Unit
AreInOrder env sort_by sort_order (a ∷ b ∷ ds) =
    IsInOrder env sort_by sort_order a b × AreInOrder env sort_by sort_order (b ∷ ds)

name_key_le :
    (env : Env) (a b : Device)
    → column_le env SortColumn.name a b ≡ text_le (name_key a.name) (name_key b.name)
unfolding column_le text_le
name_key_le env a b = ground arith

flag_key_le :
    (env : Env) (a b : Device)
    → column_le env SortColumn.is_registered a b
      ≡ text_le (flag_key a.is_registered) (flag_key b.is_registered)
unfolding column_le text_le
flag_key_le env a b = ground arith

-- The column of a request compares by its key.
column_le-key :
    (env : Env) (sort_by : Option Text) (a b : Device)
    → column_le env (resolve_sort_column sort_by) a b
      ≡ text_le (sort_key env sort_by a) (sort_key env sort_by b)
unfolding resolve_sort_column sort_column_of column_le
column_le-key env none a b = refl
column_le-key env (some s) a b = ground (arith, name_key_le env a b, flag_key_le env a b)

not_both : {b : Bool} → b ≡ true → b ≡ false → ⊥
not_both h k = cc

le_self : (b : Bool) → (b || b) ≡ true → b ≡ true
le_self b h = ground arith

differs : (k l : Text) → k ≡ l → text_le l k ≡ false → ⊥
differs k l same e =
    not_both (le_self (text_le l l) (text_le_total l l)) (subst (λ t. text_le l t ≡ false) same e)

-- The direction of a request.
direction :
    (sort_order : Option Text)
    → (IsAscending sort_order × (resolve_sort_direction sort_order ≡ true))
      ⊎ ((IsAscending sort_order → ⊥) × (resolve_sort_direction sort_order ≡ false))
unfolding resolve_sort_direction
direction none = inr (λ h. h, refl)
direction (some s) =
    let same = text_eq_iff (to_ascii_lowercase s) (bytes "asc") in
    elim (Bool-cases (text_eq (to_ascii_lowercase s) (bytes "asc"))) [
      | inl e ↦ inl (same.0 e, e)
      | inr e ↦ inr (λ h. not_both (same.1 h) e, e)
    ]

-- The order by key and MAC address of `ORDER BY`.
before :
    (k l : Text) (a b : Device)
    → (text_le k l
        && (not (text_le l k)
            || text_le (to_ascii_lowercase a.mac_address) (to_ascii_lowercase b.mac_address)))
      ≡ true
    → IsBefore k l a b
before k l a b h = elim (Bool-cases (text_le l k)) [
  | inl back ↦ inr (ground (arith, text_le_antisym k l))
  | inr e ↦ inl (λ same. differs k l same e, ground arith)
]

IsInOrder-row_before :
    (env : Env) (sort_by sort_order : Option Text) (a b : Device)
    → device_order env sort_by sort_order a b ≡ true
    → IsInOrder env sort_by sort_order a b
unfolding row_before
IsInOrder-row_before env sort_by sort_order a b h =
    let forward = column_le-key env sort_by a b in
    let backward = column_le-key env sort_by b a in
    let (k, l) : Text × Text = (sort_key env sort_by a, sort_key env sort_by b) in
    elim (direction sort_order) [
      | inl (up, e) ↦
          (λ _. before k l a b (ground (arith, forward, backward)), λ down. absurd (down up))
      | inr (down, e) ↦
          (λ up. absurd (down up), λ _. before l k a b (ground (arith, forward, backward)))
    ]

pub AreInOrder-IsOrdered :
    (env : Env) (sort_by sort_order : Option Text) (ds : List Device)
    → IsOrdered (device_order env sort_by sort_order) ds
    → AreInOrder env sort_by sort_order ds
AreInOrder-IsOrdered env sort_by sort_order [] h = tt
AreInOrder-IsOrdered env sort_by sort_order (a ∷ []) h = tt
AreInOrder-IsOrdered env sort_by sort_order (a ∷ b ∷ ds) (e, h) = (
  IsInOrder-row_before env sort_by sort_order a b e,
  AreInOrder-IsOrdered env sort_by sort_order (b ∷ ds) h,
)
