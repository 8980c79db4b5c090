-- ===== src/Scanners/Snmp/Finding/Rounds.antt =====
-- A round of the SNMP scanner, whatever the agent answers.
use oott.Prelude.{ℕ, suc, ◌+◌, ◌≤◌, Option, none, some, List, [], ◌∷◌, map, length, arith, OnSome}
use oott.Prelude.Text.{Text}
use oott.Model.Device.{Device}
use oott.Model.DeviceEvent.{snmp}
use oott.Db.{World, now, read_clock}
use oott.Db.Devices.{read}
use oott.Scanners.Ipv4.{Ipv4Addr, ip_text}
use oott.Scanners.Listening.{Outside}
use oott.Scanners.Polling.{Poller, set_running, process_devices, await_next}
use oott.Scanners.Polling.Recruiting.{IsSurveyed, IsSurveyed-cong, IsSurveyed-same, SameData}
use oott.Scanners.Polling.Rounds.{
  IsCatch, IsSurveyed-le, SameData-trans, same, build_device-IsUnowned, process_devices-IsSurveyed,
  await_next-SameData, set_running-SameData,
}
use oott.Scanners.Snmp.{
  ObjectValue, read_row, push_row, parse_arp_table, IpsByMac, add_pair, group_pairs, choose_ip,
  cons_chosen, choose_all, dedup_by_mac,
}
use oott.Scanners.Snmp.Finding.{
  read_stored_ips, lookup_ip, build_all, build_found, Found, found, unreachable, broken, find,
  after_find, poll,
}

push_row-length :
    (row : Option (Text × Ipv4Addr)) (pairs : List (Text × Ipv4Addr))
    → length (push_row row pairs) ≤ suc (length pairs)
push_row-length none pairs = omega arith
push_row-length (some p) pairs = omega arith

parse_arp_table-length :
    {Oid : Type 0} (relative_to : Oid → Option (List ℕ)) (rows : List (Oid × ObjectValue))
    → length (parse_arp_table relative_to rows) ≤ length rows
unfolding parse_arp_table
parse_arp_table-length relative_to [] = omega arith
parse_arp_table-length relative_to ((oid, value) ∷ rows) = omega (
  arith,
  push_row-length (read_row (relative_to oid) value) (parse_arp_table relative_to rows),
  parse_arp_table-length relative_to rows,
)

add_pair-length :
    (mac : Text) (ip : Ipv4Addr) (m : IpsByMac) → length (add_pair mac ip m) ≤ suc (length m)
unfolding add_pair
add_pair-length mac ip [] = omega arith
add_pair-length mac ip ((k, ips) ∷ rest) = ground (arith, add_pair-length mac ip rest)

group_pairs-length :
    (m : IpsByMac) (pairs : List (Text × Ipv4Addr))
    → length (group_pairs m pairs) ≤ length m + length pairs
unfolding group_pairs
group_pairs-length m [] = omega arith
group_pairs-length m ((mac, ip) ∷ pairs) =
    omega (arith, add_pair-length mac ip m, group_pairs-length (add_pair mac ip m) pairs)

cons_chosen-length :
    (n : ℕ) (mac : Text) (ip : Option Ipv4Addr) (r : Option (List (Text × Ipv4Addr)))
    → OnSome (λ ps. length ps ≤ n) r
    → OnSome (λ ps. length ps ≤ suc n) (cons_chosen mac ip r)
cons_chosen-length n mac none r h = tt
cons_chosen-length n mac (some ip) none h = tt
cons_chosen-length n mac (some ip) (some ps) h = omega (arith, h)

choose_all-length :
    (stored_ip : Text → Option Ipv4Addr) (m : IpsByMac)
    → OnSome (λ ps. length ps ≤ length m) (choose_all stored_ip m)
unfolding choose_all
choose_all-length stored_ip [] = omega arith
choose_all-length stored_ip ((mac, ips) ∷ rest) =
    cons_chosen-length (length rest) mac (choose_ip ips (stored_ip mac)) (choose_all stored_ip rest)
      (choose_all-length stored_ip rest)

length-OnSome-le :
    {A : Type 0} (m n : ℕ) (r : Option (List A))
    → m ≤ n
    → OnSome (λ ps. length ps ≤ m) r
    → OnSome (λ ps. length ps ≤ n) r
length-OnSome-le m n none le h = tt
length-OnSome-le m n (some ps) le h = omega (arith, le, h)

dedup_by_mac-length :
    (n : ℕ) (pairs : List (Text × Ipv4Addr)) (stored_ip : Text → Option Ipv4Addr)
    → length pairs ≤ n
    → OnSome (λ ps. length ps ≤ n) (dedup_by_mac pairs stored_ip)
unfolding dedup_by_mac
dedup_by_mac-length n pairs stored_ip le =
    let groups = group_pairs [] pairs in
    length-OnSome-le (length groups) n (choose_all stored_ip groups)
      (omega (arith, group_pairs-length [] pairs)) (choose_all-length stored_ip groups)

read-SameData : (o : Outside) (mac : Text) (w : World) → SameData w (read o.env mac w).1
unfolding read
read-SameData o mac w = ground arith

read_stored_ips-SameData :
    (o : Outside) (macs : List Text) (w : World) → SameData w (read_stored_ips o macs w).1
unfolding read_stored_ips
read_stored_ips-SameData o [] w = same w
read_stored_ips-SameData o (mac ∷ macs) w =
    SameData-trans (read-SameData o mac w) (read_stored_ips-SameData o macs (read o.env mac w).1)

build_all-IsCatch :
    (o : Outside) (ps : List (Text × Ipv4Addr)) (w : World)
    → IsCatch (length ps) (build_all o ps w).0 × SameData w (build_all o ps w).1
unfolding build_all
build_all-IsCatch o [] w = ((tt, omega arith), same w)
build_all-IsCatch o ((mac, ip) ∷ ps) w =
    let ((us, le), k) = build_all-IsCatch o ps (read_clock w) in
    (
      (
        (build_device-IsUnowned o.vendor_data (now o.env w) mac (ip_text ip) [] none, us),
        omega (arith, le),
      ),
      record { tables = k.tables; queue = k.queue },
    )

abbrev devices_of : Found → Option (List Device)
devices_of (found ds) = some ds
devices_of unreachable = none
devices_of broken = none

abbrev IsFound : ℕ → World → Found × World → Type 0
IsFound n w r = OnSome (IsCatch n) (devices_of r.0) × SameData w r.1

build_found-IsFound :
    (o : Outside) (n : ℕ) (r : Option (List (Text × Ipv4Addr))) (w v : World)
    → OnSome (λ ps. length ps ≤ n) r
    → SameData w v
    → IsFound n w (build_found o r v)
build_found-IsFound o n none w v h e = (tt, e)
build_found-IsFound o n (some ps) w v h e =
    let ((us, le), k) = build_all-IsCatch o ps v in ((us, omega (arith, le, h)), SameData-trans e k)

-- The number of rows of the agent's answer.
abbrev pub row_count : {Oid : Type 0} → Option (List (Oid × ObjectValue)) → ℕ
row_count none = 0
row_count (some rows) = length rows

module _ {Oid : Type 0} (o : Outside) (relative_to : Oid → Option (List ℕ)) where
  find-IsFound :
      (walked : Option (List (Oid × ObjectValue))) (w : World)
      → IsFound (row_count walked) w (find o relative_to walked w)
  unfolding find
  find-IsFound none w = (tt, same w)
  find-IsFound (some rows) w =
      let pairs = parse_arp_table relative_to rows in
      let macs = map (λ e. e.0) (group_pairs [] pairs) in
      let r = read_stored_ips o macs w in
      build_found-IsFound o (length rows) (dedup_by_mac pairs (lookup_ip r.0)) w r.1
        (dedup_by_mac-length (length rows) pairs (lookup_ip r.0)
          (parse_arp_table-length relative_to rows))
        (read_stored_ips-SameData o macs w)

  after_find-IsSurveyed :
      (n : ℕ) (w : World) (r : Found × World) (p : Poller)
      → IsFound n w r
      → IsSurveyed n w (after_find o r p).1.world
  unfolding after_find
  after_find-IsSurveyed n w (broken, v) p (h, k) = IsSurveyed-same n w v k
  after_find-IsSurveyed n w (unreachable, v) p (h, k) =
      let q = record p { world = v } in
      let wait = o.env.settings.snmp_scanner.wait_between_scans in
      IsSurveyed-same n w (await_next {E = ⊥} o.env wait q).1.world
        (SameData-trans k (await_next-SameData ⊥ o.env wait q))
  after_find-IsSurveyed n w (found ds, v) p ((us, le), k) =
      let q = process_devices o.env o.duration_text snmp ds (record p { world = v }) in
      let wait = o.env.settings.snmp_scanner.wait_between_scans in
      IsSurveyed-cong n w v q.world (await_next {E = ⊥} o.env wait q).1.world k
        (await_next-SameData ⊥ o.env wait q)
        (IsSurveyed-le (length ds) n v q.world le
          (process_devices-IsSurveyed o.env o.duration_text snmp ds (record p { world = v }) us))

  -- A round adds at most as many devices as the agent's table has rows.
  pub poll_of_agent-IsSurveyed :
      (walked : Option (List (Oid × ObjectValue))) (p : Poller)
      → IsSurveyed
          (row_count walked)
          p.world
          (poll o relative_to walked (set_running o.env p)).1.world
  unfolding poll
  poll_of_agent-IsSurveyed walked p =
      let q = set_running o.env p in
      let v = (poll o relative_to walked q).1.world in
      IsSurveyed-cong (row_count walked) p.world q.world v v (set_running-SameData o.env p) (same v)
        (after_find-IsSurveyed (row_count walked) q.world (find o relative_to walked q.world) q
          (find-IsFound walked q.world))
