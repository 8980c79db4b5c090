-- ===== src/Db/Devices/Keys.antt =====
-- The primary key of the devices table: no two rows have the same MAC address, in any case.
use oott.Prelude.{
  Bool, false, not, ◌≡◌, refl, ap, List, [], ◌∷◌, ◌++◌, any, keep, update_where, arith, Option,
  any-append, any-keep, any-update_where, Bool-cases, inl, inr,
}
use oott.Prelude.Text.{Text, nocase_eq, text_eq_iff, to_ascii_lowercase}
use oott.Model.Device.{Device}
use oott.Utils.Network.{normalize_mac}
use oott.Db.State.{World, Env}
use oott.Db.Devices.Updates.{
  has_mac, insert, seen, update, register, unregister, delete, seen_row, updated_row,
  registered_row, unregistered_row,
}

abbrev pub HasUniqueMacs : List Device → Type 0
HasUniqueMacs [] = Unit
HasUniqueMacs (d ∷ ds) = (any (has_mac d.mac_address) ds ≡ false) × HasUniqueMacs ds

nocase_eq_symm : (s t : Text) → nocase_eq s t ≡ nocase_eq t s
unfolding nocase_eq
nocase_eq_symm s t = ground (
  arith,
  text_eq_iff (to_ascii_lowercase s) (to_ascii_lowercase t),
  text_eq_iff (to_ascii_lowercase t) (to_ascii_lowercase s),
)

HasUniqueMacs-append :
    (ds : List Device) (d : Device)
    → HasUniqueMacs ds
    → any (has_mac d.mac_address) ds ≡ false
    → HasUniqueMacs (ds ++ d ∷ [])
HasUniqueMacs-append [] d h k = (refl, tt)
HasUniqueMacs-append (e ∷ ds) d (u, h) k = (
  ground (
    arith,
    any-append (has_mac e.mac_address) ds (d ∷ []),
    nocase_eq_symm e.mac_address d.mac_address,
  ),
  HasUniqueMacs-append ds d h (ground arith),
)

HasUniqueMacs-keep :
    (q : Device → Bool) (ds : List Device) → HasUniqueMacs ds → HasUniqueMacs (keep q ds)
HasUniqueMacs-keep q [] h = tt
HasUniqueMacs-keep q (d ∷ ds) (u, h) =
    ground (arith, HasUniqueMacs-keep q ds h, any-keep (has_mac d.mac_address) q ds u)

HasUniqueMacs-update_where :
    (q : Device → Bool) (f : Device → Device)
    → ((d : Device) → (f d).mac_address ≡ d.mac_address)
    → (ds : List Device) → HasUniqueMacs ds
    → HasUniqueMacs (update_where q f ds)
HasUniqueMacs-update_where q f same [] h = tt
HasUniqueMacs-update_where q f same (d ∷ ds) (u, h) =
    let kept =
      λ (m : Text). any-update_where (has_mac m) q f (λ x. ap (λ k. nocase_eq k m) (same x)) ds in
    elim (Bool-cases (q d)) [
      | inl e ↦ rw (e, same d, kept d.mac_address) (u, HasUniqueMacs-update_where q f same ds h)
      | inr e ↦ rw (e, kept d.mac_address) (u, HasUniqueMacs-update_where q f same ds h)
    ]

-- The calls that change the devices table.
pub data DeviceCall : Type 0 where
  inserts : Device → DeviceCall
  sees : (mac_address ipv4_address vendor device_type : Text) (name : Option Text) → DeviceCall
  updates : (mac_address owner device_type vendor : Text) (name : Option Text) → DeviceCall
  registers : (mac_address owner device_type : Text) (name : Option Text) → DeviceCall
  unregisters deletes : (mac_address : Text) → DeviceCall

-- The state after a call, whatever its result.
unfoldable pub run_call : Env → DeviceCall → World → World
unfolding insert seen update register unregister delete
run_call env (inserts d) w = (insert env d w).1
run_call env (sees mac ip vendor kind name) w = (seen env mac ip vendor kind name w).1
run_call env (updates mac owner kind vendor name) w = (update env mac owner kind vendor name w).1
run_call env (registers mac owner kind name) w = (register env mac owner kind name w).1
run_call env (unregisters mac) w = (unregister env mac w).1
run_call env (deletes mac) w = (delete env mac w).1

-- The case of an UPDATE: the MAC addresses stay.
module _ (mac : Text) (w : World) (h : HasUniqueMacs w.tables.devices) where
  update-HasUniqueMacs :
      (f : Device → Device)
      → ((d : Device) → (f d).mac_address ≡ d.mac_address)
      → HasUniqueMacs (update_where (has_mac (normalize_mac mac)) f w.tables.devices)
  update-HasUniqueMacs f same =
      HasUniqueMacs-update_where (has_mac (normalize_mac mac)) f same w.tables.devices h

pub call-HasUniqueMacs :
    (env : Env) (c : DeviceCall) (w : World)
    → HasUniqueMacs w.tables.devices
    → HasUniqueMacs (run_call env c w).tables.devices
unfolding run_call seen_row updated_row registered_row unregistered_row
call-HasUniqueMacs env (inserts d) w h = ground (
  arith,
  HasUniqueMacs-append w.tables.devices (record d { mac_address = normalize_mac d.mac_address }) h,
)
call-HasUniqueMacs env (sees mac ip vendor kind name) w h = ground (
  arith,
  update-HasUniqueMacs mac w h (seen_row (env.clock w.clock_reads) ip vendor kind name) (λ d. refl),
)
call-HasUniqueMacs env (updates mac owner kind vendor name) w h =
    ground (arith, update-HasUniqueMacs mac w h (updated_row owner kind vendor name) (λ d. refl))
call-HasUniqueMacs env (registers mac owner kind name) w h =
    ground (arith, update-HasUniqueMacs mac w h (registered_row owner kind name) (λ d. refl))
call-HasUniqueMacs env (unregisters mac) w h =
    ground (arith, update-HasUniqueMacs mac w h unregistered_row (λ d. refl))
call-HasUniqueMacs env (deletes mac) w h =
    ground (arith, HasUniqueMacs-keep (λ d. not (has_mac (normalize_mac mac) d)) w.tables.devices h)

unfoldable pub run_calls : Env → List DeviceCall → World → World
unfolding run_call
run_calls env [] w = w
run_calls env (c ∷ cs) w = run_calls env cs (run_call env c w)

-- Whatever calls are made on the devices table, and whichever of them fail, a table with at most
-- one row for each MAC address, read without regard to case, keeps that.
pub run_calls-HasUniqueMacs :
    (env : Env) (cs : List DeviceCall) (w : World)
    → HasUniqueMacs w.tables.devices
    → HasUniqueMacs (run_calls env cs w).tables.devices
unfolding run_calls
run_calls-HasUniqueMacs env [] w h = h
run_calls-HasUniqueMacs env (c ∷ cs) w h =
    run_calls-HasUniqueMacs env cs (run_call env c w) (call-HasUniqueMacs env c w h)
