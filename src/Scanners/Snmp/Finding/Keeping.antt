-- ===== src/Scanners/Snmp/Finding/Keeping.antt =====
-- A poll of the SNMP agent gives a device the address that is stored of it, if it still has it.
use oott.Prelude.{
  ℕ, Bool, true, false, ◌≡◌, refl, ap, ◌∙◌, Option, some, List, [], ◌∷◌, any, map, keep, inl, inr,
  Bool-cases, arith,
}
use oott.Prelude.Text.{Text, text_eq, text_eq_sound}
use oott.Model.Device.{Device, new_device}
use oott.Db.{World, Tables, read_clock}
use oott.Db.Devices.{read, has_mac}
use oott.Utils.Network.{normalize_mac}
use oott.Db.Devices.Reading.{row_of, only, read_exact, read_unchanged}
use oott.Scanners.Ipv4.{Ipv4Addr, ip_text}
use oott.Scanners.Enrichment.{build_device}
use oott.Scanners.Listening.{Outside}
use oott.Scanners.Snmp.{IpsByMac, ObjectValue, parse_arp_table, group_pairs, dedup_by_mac}
use oott.Scanners.Snmp.Choice.Single.{out-only}
use oott.Scanners.Snmp.Choice.{
  group_pairs-AreSorted, is_pair, in_group, any-group_pairs, choose_all-AreChosen,
  group_pairs-AreNonEmpty,
}
use oott.Scanners.Snmp.Finding.{
  stored_of, read_stored_ips, lookup_ip, build_all, found, find, parse_ipv4,
}
use oott.Scanners.Snmp.Finding.Addresses.{IsAddress, parse_ipv4-ip_text}

-- The address stored of a MAC.
abbrev stored_for : World → Text → Option Ipv4Addr
stored_for w mac = stored_of (row_of mac w)

abbrev with_stored : World → Text → Text × Option Ipv4Addr
with_stored w mac = (mac, stored_for w mac)

module _ (o : Outside) (sound : (n : ℕ) → o.env.db_fails n ≡ false) where
  read_stored_ips-eq :
      (macs : List Text) (w : World) → (read_stored_ips o macs w).0 ≡ map (with_stored w) macs
  unfolding read_stored_ips
  read_stored_ips-eq [] w = refl
  read_stored_ips-eq (mac ∷ macs) w =
      let v = (read o.env mac w).1 in
      let same : with_stored v ≡ with_stored w =
        ap
          (λ (t : Tables).
            λ (m : Text). (m, stored_of (only (keep (has_mac (normalize_mac m)) t.devices))))
          (read_unchanged o.env mac w).0 in
      rw (read_exact o.env mac w sound) (
        ap (λ rest. with_stored w mac ∷ rest)
          (read_stored_ips-eq macs v ∙ ap (λ f. map f macs) same))

lookup_ip-map :
    (w : World) (macs : List Text) (m : Text)
    → any (λ k. text_eq k m) macs ≡ true
    → lookup_ip (map (with_stored w) macs) m ≡ stored_for w m
lookup_ip-map w [] m h = absurd (cc)
lookup_ip-map w (k ∷ macs) m h = elim (Bool-cases (text_eq k m)) [
  | inl e ↦ rw (e, lookup_ip) (ap (stored_for w) (text_eq_sound k m e))
  | inr e ↦ rw (e, lookup_ip) (lookup_ip-map w macs m (ground arith))
]

group-mac :
    (m : Text) (x : Ipv4Addr) (groups : IpsByMac)
    → any (in_group m x) groups ≡ true
    → any (λ k. text_eq k m) (map (λ g. g.0) groups) ≡ true
group-mac m x [] h = absurd (cc)
group-mac m x (g ∷ groups) h = ground (arith, group-mac m x groups)

-- Whether a device is the one of a MAC.
abbrev pub is_device : Text → Device → Bool
is_device m d = text_eq d.mac_address m

-- The addresses that a poll found for a MAC.
abbrev pub addresses_of : Text → List Device → List Text
addresses_of m devices = map (λ d. d.ipv4_address) (keep (is_device m) devices)

built :
    (o : Outside) (m : Text) (pairs : List (Text × Ipv4Addr)) (w : World)
    → addresses_of m (build_all o pairs w).0
      ≡ map (λ p. ip_text p.1) (keep (λ p. text_eq p.0 m) pairs)
unfolding build_all build_device new_device
built o m [] w = refl
built o m ((mac, ip) ∷ pairs) w = ground (arith, built o m pairs (read_clock w))

-- The addresses chosen, where the database is read without a fault.
chosen_pairs :
    (o : Outside) (m : Text) (x : Ipv4Addr) (pairs : List (Text × Ipv4Addr)) (w : World)
    → ((n : ℕ) → o.env.db_fails n ≡ false)
    → stored_for w m ≡ some x
    → any (is_pair m x) pairs ≡ true
    → let stored = (read_stored_ips o (map (λ e. e.0) (group_pairs [] pairs)) w).0 in
      (out : List (Text × Ipv4Addr)) × (dedup_by_mac pairs (lookup_ip stored) ≡ some out)
      × (keep (λ p. text_eq p.0 m) out ≡ (m, x) ∷ [])
unfolding dedup_by_mac
chosen_pairs o m x pairs w sound stored listed =
    let groups = group_pairs [] pairs in
    let macs = map (λ (e : Text × List Ipv4Addr). e.0) groups in
    let there = any-group_pairs m x [] pairs ∙ listed in
    let known = lookup_ip-map w macs m (group-mac m x groups there) ∙ stored in
    let (out, e, c) =
      choose_all-AreChosen (lookup_ip (map (with_stored w) macs)) groups
        (group_pairs-AreNonEmpty [] pairs tt) in
    rw (read_stored_ips-eq o sound macs w) (
      out,
      e,
      out-only (lookup_ip (map (with_stored w) macs)) m x groups out c
          (group_pairs-AreSorted [] pairs tt) known there,
    )

-- Where no call of the database fails: if the devices table holds exactly one device with a MAC
-- address, with the text of an IPv4 address, and the agent's neighbour table still lists this
-- address for the MAC, among whatever other addresses, then a poll finds devices, among them exactly
-- one with this MAC, and this has this address.
pub find-keeps_address :
    {Oid : Type 0} (o : Outside) (relative_to : Oid → Option (List ℕ))
    (rows : List (Oid × ObjectValue)) (w : World) (m : Text) (d : Device) (x : Ipv4Addr)
    → ((n : ℕ) → o.env.db_fails n ≡ false)
    → row_of m w ≡ some d
    → d.ipv4_address ≡ ip_text x
    → IsAddress x
    → any (is_pair m x) (parse_arp_table relative_to rows) ≡ true
    → (devices : List Device) × ((find o relative_to (some rows) w).0 ≡ found devices)
      × (addresses_of m devices ≡ ip_text x ∷ [])
unfolding find
find-keeps_address o relative_to rows w m d x sound row text valid listed =
    let pairs = parse_arp_table relative_to rows in
    let known : stored_for w m ≡ some x =
      ap stored_of row ∙ ap parse_ipv4 text ∙ parse_ipv4-ip_text x valid in
    let (out, e, there) = chosen_pairs o m x pairs w sound known listed in
    let w₁ =
      (read_stored_ips o (map (λ (g : Text × List Ipv4Addr). g.0) (group_pairs [] pairs)) w).1 in
    rw e ((build_all o out w₁).0, refl, built o m out w₁ ∙ ap (map (λ p. ip_text p.1)) there)
