-- ===== src/Db/Devices/Reading.antt =====
-- What `read` finds, and that it changes nothing.
use oott.Prelude.{
  ℕ, suc, false, ◌≡◌, ap, Option, none, some, List, [], ◌∷◌, keep, map, update_where, arith,
  keep-update_where,
}
use oott.Prelude.Text.{Text, nocase_eq}
use oott.Model.Device.{Device}
use oott.Utils.Network.{normalize_mac}
use oott.Db.State.{World, Env}
use oott.Db.Devices.Updates.{has_mac, read}

-- The only row of a list.
abbrev pub only : List Device → Option Device
only [] = none
only (d ∷ []) = some d
only (d ∷ e ∷ r) = none

-- The row of a device, where there is exactly one.
abbrev pub row_of : Text → World → Option Device
row_of mac w = only (keep (has_mac (normalize_mac mac)) w.tables.devices)

-- Reading a device changes no table, whatever fails.
pub read_unchanged :
    (env : Env) (mac : Text) (w : World)
    → ((read env mac w).1.tables ≡ w.tables)
      × ((read env mac w).1.clock_reads ≡ w.clock_reads)
      × ((read env mac w).1.queue ≡ w.queue)
unfolding read
read_unchanged env mac w = ground arith

-- A device that `read` returns is the only row with the MAC address.
pub read_sound :
    (env : Env) (mac : Text) (w : World) (d : Device)
    → (read env mac w).0 ≡ some d
    → row_of mac w ≡ some d
unfolding read
read_sound env mac w d h = ground arith

-- Where no call of the database fails, `read` returns the device's row if there is exactly one.
pub read_exact :
    (env : Env) (mac : Text) (w : World)
    → ((n : ℕ) → env.db_fails n ≡ false)
    → (read env mac w).0 ≡ row_of mac w
unfolding read
read_exact env mac w sound = ground (arith, sound w.db_calls, sound (suc w.db_calls))

only-map :
    (f : Device → Device) (ds : List Device) (d : Device)
    → only ds ≡ some d
    → only (map f ds) ≡ some (f d)
only-map f [] d h = ground arith
only-map f (e ∷ []) d h = ground arith
only-map f (e ∷ g ∷ r) d h = ground arith

-- After an UPDATE of the device's row that keeps its MAC address, the changed row is the only one.
pub only-update :
    (mac : Text) (f : Device → Device) (ds : List Device) (d : Device)
    → ((x : Device) → (f x).mac_address ≡ x.mac_address)
    → only (keep (has_mac mac) ds) ≡ some d
    → only (keep (has_mac mac) (update_where (has_mac mac) f ds)) ≡ some (f d)
only-update mac f ds d same h =
    rw (keep-update_where (has_mac mac) f (λ x. ap (λ m. nocase_eq m mac) (same x)) ds)
      (only-map f (keep (has_mac mac) ds) d h)
