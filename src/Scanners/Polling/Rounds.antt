-- ===== src/Scanners/Polling/Rounds.antt =====
-- What a round of each scanner does to the world, whatever the network says and whatever fails.
use oott.Prelude.{ℕ, suc, ◌≤◌, refl, ◌∙◌, Option, none, some, List, length, arith, OnSome}
use oott.Prelude.Text.{Text}
use oott.Model.Device.{Device, new_device}
use oott.Model.DeviceEvent.{DeviceEventScanner}
use oott.Db.{World, Env}
use oott.Scanners.Enrichment.{Data, build_device}
use oott.Scanners.Polling.{
  Poller, record_scan, set_running, set_waiting, process_devices, await_next,
}
use oott.Scanners.Polling.Recruiting.{
  IsUnowned, AllUnowned, IsSurveyed, IsSurveyed-cong, SameData, scan-IsSurveyed,
}

-- What is built of a sighting is not registered.
pub build_device-IsUnowned :
    (data_of : Data) (at : ℕ) (mac ip : Text) (hints : List Text) (name : Option Text)
    → IsUnowned (build_device data_of at mac ip hints name)
unfolding build_device new_device
build_device-IsUnowned data_of at mac ip hints name = (refl, refl)

-- Some devices, none of them registered, and at most so many.
abbrev pub IsCatch : ℕ → List Device → Type 0
IsCatch n ds = AllUnowned ds × (length ds ≤ n)

pub same : (w : World) → SameData w w
same w = record { tables = refl; queue = refl }

pub set_running-SameData : (env : Env) (p : Poller) → SameData p.world (set_running env p).world
unfolding set_running
set_running-SameData env p = ground arith

record_scan-SameData :
    (env : Env) (ds : List Device) (p : Poller) → SameData p.world (record_scan env ds p).world
unfolding record_scan
record_scan-SameData env ds p = ground arith

pub await_next-SameData :
    (E : Type 0) (env : Env) (wait : ℕ) (p : Poller)
    → SameData p.world (await_next {E = E} env wait p).1.world
unfolding await_next set_waiting
await_next-SameData E env wait p = ground arith

pub process_devices-IsSurveyed :
    (env : Env) (duration_text : ℕ → Text) (s : DeviceEventScanner) (ds : List Device) (p : Poller)
    → AllUnowned ds
    → IsSurveyed (length ds) p.world (process_devices env duration_text s ds p).world
unfolding process_devices
process_devices-IsSurveyed env duration_text s ds p u =
    let v = (process_devices env duration_text s ds p).world in
    IsSurveyed-cong (length ds) p.world (record_scan env ds p).world v v
      (record_scan-SameData env ds p) (same v)
      (scan-IsSurveyed env duration_text s ds (record_scan env ds p).world u)

pub SameData-trans : {u v w : World} → SameData u v → SameData v w → SameData u w
SameData-trans h k = record { tables = k.tables ∙ h.tables; queue = k.queue ∙ h.queue }

-- What a scan found, in a world whose data stay.
abbrev pub IsHeard : ℕ → World → Option (List Device) × World → Type 0
IsHeard n w r = OnSome (IsCatch n) r.0 × SameData w r.1

pub IsHeard-suc :
    (n : ℕ) (w : World) (r : Option (List Device) × World) → IsHeard n w r → IsHeard (suc n) w r
IsHeard-suc n w (none, v) (h, k) = (tt, k)
IsHeard-suc n w (some ds, v) ((u, le), k) = ((u, omega (arith, le)), k)

pub IsSurveyed-le : (m n : ℕ) (w v : World) → m ≤ n → IsSurveyed m w v → IsSurveyed n w v
IsSurveyed-le m n w v le h = record {
  recruited = let (macs, e, k) = h.recruited in (macs, e, omega (arith, le, k));
  notifications = h.notifications;
  queue = h.queue;
  bounded = h.bounded;
  unique = h.unique;
}
