-- ===== src/Scanners/Snmp.antt =====
-- backend/src/scanners/snmp/finder.rs: the neighbour cache of an SNMP agent.
pub mod Choice
pub mod Finding
use oott.Prelude.{
  ℕ, ◌-◌, Bool, true, false, Option, none, some, List, [], ◌∷◌, ◌++◌, ltb, ◌==◌, if◌then◌else◌,
  length, drop, any,
}
use oott.Prelude.Text.{Text, text_eq}
use oott.Utils.Network.{format_mac}
use oott.Db.{text_le}
use oott.Scanners.Ipv4.{Ipv4Addr, ipv4, ip_eq, ip_le}

-- `csnmp::ObjectValue`: a string of bytes, or any other value.
pub data ObjectValue : Type 0 where
  string : List ℕ → ObjectValue
  other : ObjectValue

abbrev mac_of : ObjectValue → Option Text
mac_of (string octets) = if length octets == 6 then some (format_mac octets) else none
mac_of other = none

abbrev pair_with : Option Text → Ipv4Addr → Option (Text × Ipv4Addr)
pair_with none ip = none
pair_with (some mac) ip = some (mac, ip)

abbrev octets_in_range : List ℕ → Bool
octets_in_range [] = true
octets_in_range (o ∷ os) = if ltb 255 o then false else octets_in_range os

-- The address of the last four sub-identifiers, with the MAC of the value.
unfoldable pub read_octets : List ℕ → ObjectValue → Option (Text × Ipv4Addr)
unfolding format_mac
read_octets (a ∷ b ∷ c ∷ d ∷ []) value =
    if octets_in_range (a ∷ b ∷ c ∷ d ∷ []) then pair_with (mac_of value) (ipv4 a b c d) else none
read_octets _ value = none

-- One row, by the part of its OID behind the base; `none` skips the row.
unfoldable pub read_row : Option (List ℕ) → ObjectValue → Option (Text × Ipv4Addr)
unfolding read_octets
read_row none value = none
read_row (some parts) value =
    if ltb (length parts) 4 then none else read_octets (drop (length parts - 4) parts) value

abbrev push_row : Option (Text × Ipv4Addr) → List (Text × Ipv4Addr) → List (Text × Ipv4Addr)
push_row none pairs = pairs
push_row (some p) pairs = p ∷ pairs

-- `parse_arp_table`; `relative_to` is the library's `oid.relative_to(base)`.
unfoldable pub parse_arp_table :
    {Oid : Type 0} → (Oid → Option (List ℕ)) → List (Oid × ObjectValue) → List (Text × Ipv4Addr)
unfolding read_row
parse_arp_table relative_to [] = []
parse_arp_table relative_to ((oid, value) ∷ rows) =
    push_row (read_row (relative_to oid) value) (parse_arp_table relative_to rows)

-- A `BTreeMap<String, Vec<Ipv4Addr>>`: its entries in the order of their keys.
abbrev pub IpsByMac : Type 0
IpsByMac = List (Text × List Ipv4Addr)

abbrev pub push_ip : Ipv4Addr → List Ipv4Addr → List Ipv4Addr
push_ip ip ips = if any (ip_eq ip) ips then ips else ips ++ ip ∷ []

-- `by_mac.entry(mac).or_default()`, and the push.
unfoldable pub add_pair : Text → Ipv4Addr → IpsByMac → IpsByMac
unfolding text_le text_eq
add_pair mac ip [] = (mac, ip ∷ []) ∷ []
add_pair mac ip ((m, ips) ∷ rest) =
    if text_eq m mac
    then (m, push_ip ip ips) ∷ rest
    else if text_le mac m
    then (mac, ip ∷ []) ∷ (m, ips) ∷ rest
    else (m, ips) ∷ add_pair mac ip rest

-- The loop that fills the map.
unfoldable pub group_pairs : IpsByMac → List (Text × Ipv4Addr) → IpsByMac
unfolding add_pair
group_pairs by_mac [] = by_mac
group_pairs by_mac ((mac, ip) ∷ pairs) = group_pairs (add_pair mac ip by_mac) pairs

-- `candidates.iter().min()`; an empty list has no minimum, and the program panics there.
unfoldable pub lowest : List Ipv4Addr → Option Ipv4Addr
lowest [] = none
lowest (ip ∷ ips) = elim (lowest ips) [
  | none ↦ some ip
  | some least ↦ some (if ip_le ip least then ip else least)
]

-- `choose_ip`; `none` is the panic of `expect`.
unfoldable pub choose_ip : List Ipv4Addr → Option Ipv4Addr → Option Ipv4Addr
unfolding lowest
choose_ip candidates none = lowest candidates
choose_ip candidates (some stored) =
    if any (ip_eq stored) candidates then some stored else lowest candidates

abbrev cons_chosen :
    Text → Option Ipv4Addr → Option (List (Text × Ipv4Addr)) → Option (List (Text × Ipv4Addr))
cons_chosen mac (some ip) (some pairs) = some ((mac, ip) ∷ pairs)
cons_chosen mac (some ip) none = none
cons_chosen mac none pairs = none

unfoldable pub choose_all : (Text → Option Ipv4Addr) → IpsByMac → Option (List (Text × Ipv4Addr))
unfolding choose_ip
choose_all stored_ip [] = some []
choose_all stored_ip ((mac, ips) ∷ rest) =
    cons_chosen mac (choose_ip ips (stored_ip mac)) (choose_all stored_ip rest)

-- `dedup_by_mac`; `none` is a panic.
unfoldable pub dedup_by_mac :
    List (Text × Ipv4Addr) → (Text → Option Ipv4Addr) → Option (List (Text × Ipv4Addr))
unfolding group_pairs choose_all
dedup_by_mac pairs stored_ip = choose_all stored_ip (group_pairs [] pairs)
