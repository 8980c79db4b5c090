-- ===== src/Scanners/Snmp/Finding.antt =====
-- backend/src/scanners/snmp: `find` and the loop of scanner.rs.
pub mod Rounds
pub mod Addresses
pub mod Keeping
use oott.Prelude.{
  ℕ, ◌+◌, ◌-◌, ◌*◌, ◌&&◌, ◌==◌, Option, none, some, List, [], ◌∷◌, map, ltb, leb, length,
  if◌then◌else◌,
}
use oott.Prelude.Text.{Text, text_eq, is_empty}
use oott.Model.Device.{Device}
use oott.Model.DeviceEvent.{snmp}
use oott.Db.{World, now, read_clock}
use oott.Db.Devices.{read}
use oott.Scanners.Ipv4.{Ipv4Addr, ipv4, ip_text}
use oott.Scanners.Enrichment.{build_device}
use oott.Scanners.Ssdp.{split_on}
use oott.Scanners.Snmp.{ObjectValue, parse_arp_table, dedup_by_mac, group_pairs}
use oott.Scanners.Listening.{Outside}
use oott.Scanners.Polling.{
  Poller, RoundEnd, panics, TaskEnd, returned, Round, process_devices, await_next, poll_loop,
}

-- `str::parse::<Ipv4Addr>`: four decimal numbers up to 255 of at most three digits, none with a
-- leading zero.
abbrev read_digit : ℕ → Option ℕ → Option ℕ
read_digit b none = none
read_digit b (some n) = if leb b'0' b && leb b b'9' then some (n * 10 + (b - b'0')) else none

abbrev read_digits : Option ℕ → Text → Option ℕ
read_digits n [] = n
read_digits n (b ∷ t) = read_digits (read_digit b n) t

abbrev check_octet : Option ℕ → Option ℕ
check_octet none = none
check_octet (some n) = if ltb n 256 then some n else none

unfoldable pub parse_octet : Text → Option ℕ
parse_octet [] = none
parse_octet (b ∷ []) = check_octet (read_digits (some 0) (b ∷ []))
parse_octet (b ∷ c ∷ t) =
    if b == b'0'
    then none
    else if ltb 3 (length (b ∷ c ∷ t))
    then none
    else check_octet (read_digits (some 0) (b ∷ c ∷ t))

abbrev address_of : List (Option ℕ) → Option Ipv4Addr
address_of (some a ∷ some b ∷ some c ∷ some d ∷ []) = some (ipv4 a b c d)
address_of _ = none

unfoldable pub parse_ipv4 : Text → Option Ipv4Addr
unfolding parse_octet split_on
parse_ipv4 t = address_of (map parse_octet (split_on b'.' t))

abbrev stored_of : Option Device → Option Ipv4Addr
stored_of none = none
stored_of (some d) = parse_ipv4 d.ipv4_address

-- The closure that `find` hands to `dedup_by_mac`: it reads the database once for each MAC of the
-- map, in their order.
unfoldable pub read_stored_ips : Outside → List Text → World → List (Text × Option Ipv4Addr) × World
unfolding read parse_ipv4
read_stored_ips o [] w = ([], w)
read_stored_ips o (mac ∷ macs) w =
    let (device, w₁) = read o.env mac w in
    let (rest, w₂) = read_stored_ips o macs w₁ in ((mac, stored_of device) ∷ rest, w₂)

abbrev pub lookup_ip : List (Text × Option Ipv4Addr) → Text → Option Ipv4Addr
lookup_ip [] mac = none
lookup_ip ((m, ip) ∷ rest) mac = if text_eq m mac then ip else lookup_ip rest mac

-- `build_device` for each pair.
unfoldable pub build_all : Outside → List (Text × Ipv4Addr) → World → List Device × World
unfolding build_device ip_text
build_all o [] w = ([], w)
build_all o ((mac, ip) ∷ pairs) w =
    let device = build_device o.vendor_data (now o.env w) mac (ip_text ip) [] none in
    let (devices, w₁) = build_all o pairs (read_clock w) in (device ∷ devices, w₁)

-- The result of a poll: devices, an error of the agent or of its address, or a panic.
pub data Found : Type 0 where
  found : List Device → Found
  unreachable broken : Found

abbrev build_found : Outside → Option (List (Text × Ipv4Addr)) → World → Found × World
build_found o none w = (broken, w)
build_found o (some pairs) w = let (devices, w₁) = build_all o pairs w in (found devices, w₁)

-- `find`, behind the walk of the agent by `csnmp`, which gives its rows or an error.
unfoldable pub find :
    {Oid : Type 0}
    → Outside
    → (Oid → Option (List ℕ))
    → Option (List (Oid × ObjectValue))
    → World
    → Found × World
unfolding parse_arp_table group_pairs dedup_by_mac read_stored_ips build_all
find o relative_to none w = (unreachable, w)
find o relative_to (some rows) w =
    let pairs = parse_arp_table relative_to rows in
    let (stored, w₁) = read_stored_ips o (map (λ e. e.0) (group_pairs [] pairs)) w in
    build_found o (dedup_by_mac pairs (lookup_ip stored)) w₁

-- The part of a round of scanner.rs behind the poll: an error is logged, and the loop goes on.
unfoldable pub after_find : Outside → Found × World → Poller → RoundEnd ⊥ × Poller
unfolding process_devices await_next
after_find o (broken, w) p = (panics, record p { world = w })
after_find o (unreachable, w) p =
    await_next o.env o.env.settings.snmp_scanner.wait_between_scans (record p { world = w })
after_find o (found devices, w) p =
    await_next o.env o.env.settings.snmp_scanner.wait_between_scans
      (process_devices o.env o.duration_text snmp devices (record p { world = w }))

unfoldable pub poll :
    {Oid : Type 0}
    → Outside
    → (Oid → Option (List ℕ))
    → Option (List (Oid × ObjectValue))
    → Poller
    → RoundEnd ⊥ × Poller
unfolding find after_find
poll o relative_to walked p = after_find o (find o relative_to walked p.world) p

-- `scan`: without a target it does not start.
unfoldable pub scan :
    {Oid : Type 0}
    → Outside
    → (Oid → Option (List ℕ))
    → List (Round (Option (List (Oid × ObjectValue))))
    → Poller
    → TaskEnd ⊥ × Poller
unfolding poll_loop poll
scan o relative_to rounds p =
    if o.env.settings.snmp_scanner.enabled
    then if is_empty o.env.settings.snmp_scanner.target
      then (returned, p)
      else poll_loop o.env (poll o relative_to) rounds p
    else (returned, p)
