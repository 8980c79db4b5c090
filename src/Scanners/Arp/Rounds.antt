-- ===== src/Scanners/Arp/Rounds.antt =====
-- A round of the ARP scanner, whatever the network answers.
use oott.Db.Devices.Keys.{HasUniqueMacs}
use oott.Prelude.{
  ◌≤◌, ◌+◌, ℕ, suc, Bool, true, false, refl, Option, none, some, List, [], ◌∷◌, length, arith,
}
use oott.Prelude.Text.{Text}
use oott.Model.Device.{Device}
use oott.Model.DeviceEvent.{arp}
use oott.Utils.Network.{NetworkInterface, select_interface, first_ipv4}
use oott.Utils.Probing.{Received, failed, too_short, frame, Channel, ethernet, unsupported}
use oott.Db.{World, now, read_clock}
use oott.Scanners.Ipv4.{Ipv4Addr, ip_text}
use oott.Scanners.Listening.{Outside}
use oott.Scanners.Polling.{Poller, set_running, process_devices, await_next}
use oott.Scanners.Polling.Recruiting.{
  IsRecruited, IsUnowned, IsSurveyed, IsSurveyed-cong, IsSurveyed-same, SameData,
}
use oott.Scanners.Polling.Rounds.{
  IsHeard, IsHeard-suc, IsSurveyed-le, SameData-trans, same, build_device-IsUnowned,
  process_devices-IsSurveyed, await_next-SameData, set_running-SameData,
}
use oott.Scanners.Arp.{
  ScanError, Reading, irrelevant, unreadable, reply, read_frame, cons_device, after_reading,
  listen_for_packets, ArpAnswer, Found, found, no_scan, broken, receive, receive_on, find_from,
  find_on, find, after_find, poll,
}

cons-IsHeard :
    (n : ℕ) (d : Device) (w v : World) (r : Option (List Device) × World)
    → IsUnowned d
    → SameData w v
    → IsHeard n v r
    → IsHeard (suc n) w (cons_device d r)
cons-IsHeard n d w v (none, x) u e (h, k) = (tt, SameData-trans e k)
cons-IsHeard n d w v (some ds, x) u e ((us, le), k) =
    (((u, us), omega (arith, le)), SameData-trans e k)

after_reading-IsHeard :
    (o : Outside) (n : ℕ) (x : Reading) (rest : World → Option (List Device) × World) (w : World)
    → ((v : World) → IsHeard n v (rest v))
    → IsHeard (suc n) w (after_reading o x rest w)
after_reading-IsHeard o n irrelevant rest w h = IsHeard-suc n w (rest w) (h w)
after_reading-IsHeard o n unreadable rest w h = (tt, same w)
after_reading-IsHeard o n (reply a) rest w h =
    cons-IsHeard n _ w (read_clock w) (rest (read_clock w))
      (build_device-IsUnowned o.vendor_data (now o.env w) a.sender_hw_addr
        (ip_text a.sender_proto_addr) [] none)
      (record { tables = refl; queue = refl }) (h (read_clock w))

listen_for_packets-IsHeard :
    (o : Outside) (own_ip : Ipv4Addr) (rs : List Received) (w : World)
    → IsHeard (length rs) w (listen_for_packets o own_ip rs w)
unfolding listen_for_packets
listen_for_packets-IsHeard o own_ip [] w = ((tt, omega arith), same w)
listen_for_packets-IsHeard o own_ip (failed ∷ rs) w =
    IsHeard-suc (length rs) w (listen_for_packets o own_ip rs w)
      (listen_for_packets-IsHeard o own_ip rs w)
listen_for_packets-IsHeard o own_ip (too_short ∷ rs) w = (tt, same w)
listen_for_packets-IsHeard o own_ip (frame eth ∷ rs) w =
    after_reading-IsHeard o (length rs) (read_frame own_ip eth)
      (λ v. listen_for_packets o own_ip rs v) w (λ v. listen_for_packets-IsHeard o own_ip rs v)

-- The devices of a result, if it has any.
abbrev devices_of : Found → Option (List Device)
devices_of (found ds) = some ds
devices_of (no_scan e) = none
devices_of broken = none

abbrev IsFound : ℕ → World → Found × World → Type 0
IsFound n w r = IsHeard n w (devices_of r.0, r.1)

receive-IsFound :
    (timed_out : Bool) (n : ℕ) (w : World) (r : Option (List Device) × World)
    → IsHeard n w r
    → IsFound n w (receive timed_out r)
receive-IsFound t n w (none, v) h = h
receive-IsFound true n w (some ds, v) (h, k) = ((tt, omega arith), k)
receive-IsFound false n w (some ds, v) h = h

receive_on-IsFound :
    (o : Outside) (c : Option Channel) (ip : Ipv4Addr) (a : ArpAnswer) (w : World)
    → IsFound (length a.received) w (receive_on o c ip a w)
unfolding receive_on
receive_on-IsFound o (some ethernet) ip a w =
    receive-IsFound a.timed_out (length a.received) w (listen_for_packets o ip a.received w)
      (listen_for_packets-IsHeard o ip a.received w)
receive_on-IsFound o (some unsupported) ip a w = (tt, same w)
receive_on-IsFound o none ip a w = (tt, same w)

find_from-IsFound :
    (o : Outside) (ip : Option Ipv4Addr) (mac : Option Text) (a : ArpAnswer) (w : World)
    → IsFound (length a.received) w (find_from o ip mac a w)
unfolding find_from
find_from-IsFound o none mac a w = (tt, same w)
find_from-IsFound o (some ip) none a w = (tt, same w)
find_from-IsFound o (some ip) (some mac) a w = receive_on-IsFound o a.channel ip a w

find_on-IsFound :
    (o : Outside) (iface : Option NetworkInterface) (a : ArpAnswer) (w : World)
    → IsFound (length a.received) w (find_on o iface a w)
unfolding find_on
find_on-IsFound o none a w = (tt, same w)
find_on-IsFound o (some iface) a w = find_from-IsFound o (first_ipv4 iface.ips) iface.mac a w

after_find-IsSurveyed :
    (o : Outside) (n : ℕ) (w : World) (r : Found × World) (p : Poller)
    → IsFound n w r
    → IsSurveyed n w (after_find o r p).1.world
unfolding after_find
after_find-IsSurveyed o n w (broken, v) p (h, k) = IsSurveyed-same n w v k
after_find-IsSurveyed o n w (no_scan e, v) p (h, k) = IsSurveyed-same n w v k
after_find-IsSurveyed o n w (found ds, v) p ((us, le), k) =
    let q = process_devices o.env o.duration_text arp ds (record p { world = v }) in
    let wait = o.env.settings.arp_scanner.wait_between_scans in
    IsSurveyed-cong n w v q.world (await_next o.env wait q).1.world k
      (await_next-SameData ScanError o.env wait q)
      (IsSurveyed-le (length ds) n v q.world le
        (process_devices-IsSurveyed o.env o.duration_text arp ds (record p { world = v }) us))

-- A round adds at most as many devices as packets came.
pub poll-IsSurveyed :
    (o : Outside) (a : ArpAnswer) (p : Poller)
    → IsSurveyed (length a.received) p.world (poll o a (set_running o.env p)).1.world
unfolding poll find
poll-IsSurveyed o a p =
    let q = set_running o.env p in
    let i = o.env.settings.networking.interface in
    let v = (poll o a q).1.world in
    IsSurveyed-cong (length a.received) p.world q.world v v (set_running-SameData o.env p) (same v)
      (after_find-IsSurveyed o (length a.received) q.world (find o i a q.world) q
        (find_on-IsFound o (select_interface a.interfaces i) a q.world))

-- A round of the ARP scanner, whatever packets come and whatever fails: every device keeps its
-- place, its address, its registration and its owner, and at most as many devices as packets came
-- are added, not registered and without an owner. However many devices answer, at most three
-- notifications and three requests of delivery are added. Where no two devices have the same MAC
-- address and at most 100 requests wait, it stays so.
pub poll-IsRecruited :
    (o : Outside) (a : ArpAnswer) (p : Poller)
    → HasUniqueMacs p.world.tables.devices
    → length p.world.queue ≤ 100
    → let w = (poll o a (set_running o.env p)).1.world in
      IsRecruited (length a.received) p.world w
      × (length w.tables.notifications ≤ length p.world.tables.notifications + 3)
      × (length w.queue ≤ length p.world.queue + 3)
      × HasUniqueMacs w.tables.devices
      × (length w.queue ≤ 100)
poll-IsRecruited o a p u b =
    let h = poll-IsSurveyed o a p in
    (h.recruited, h.notifications, h.queue, h.unique u, h.bounded b)
