-- ===== src/Scanners/Listening.antt =====
-- The listening loops of the passive scanners: backend/src/scanners/dhcp/scanner.rs,
-- mdns/scanner.rs and ssdp/scanner.rs.
pub mod Rounds
use oott.Prelude.{ℕ, Bool, true, false, Option, none, some, List, [], ◌∷◌}
use oott.Prelude.Text.{Text}
use oott.Model.DeviceEvent.{DeviceEventScanner, dhcp, mdns, ssdp}
use oott.Utils.Probing.{Neighbours, resolve_mac_address}
use oott.Db.{World, Env, now, read_clock, Result, ok, err}
use oott.Scanners.Ipv4.{Ipv4Addr, ip_text}
use oott.Scanners.Enrichment.{Data, build_device}
use oott.Scanners.Pipeline.{record_and_notify}
use oott.Scanners.PassiveStatus.{PassiveStatusCell}
use oott.Scanners.PassiveStatus as Status
use oott.Scanners.Dhcp.{DhcpDiscovery, parse_packet}
use oott.Scanners.Mdns as Mdns
use oott.Scanners.Ssdp as Ssdp

-- What the scanners do not decide: the environment of the database, the vendor data, the text of a
-- duration, `simple_dns`'s parser of packets, and the text of a MAC address as `pnet` parses it.
pub record Outside : Type 0 where
  pub env : Env
  pub vendor_data : Data
  pub duration_text : ℕ → Text
  pub parse_dns : List ℕ → Option Mdns.Packet
  pub parse_mac : Text → Option Text

-- `std::net::IpAddr`.
pub data IpAddr : Type 0 where
  v4 : Ipv4Addr → IpAddr
  v6 : List ℕ → IpAddr

-- What a round of a loop takes up: the shutdown, an error of the socket, or a datagram.
pub data Incoming : Type 0 where
  cancelled receive_error : Incoming
  datagram : (src : IpAddr) → List ℕ → Neighbours → Incoming

-- The database and the status of one scanner.
pub record Listener : Type 0 where
  pub world : World
  pub status : PassiveStatusCell

-- `PassiveStatusCell::set_listening` and `record_discovery`, which read the clock.
unfoldable pub set_listening : Env → Listener → Listener
unfolding Status.set_listening
set_listening env l = elim l.status [
  | none ↦ l
  | some s ↦ record {
    world = read_clock l.world;
    status = some (Status.set_listening (now env l.world) s);
  }
]

unfoldable pub record_discovery : Env → Text → Listener → Listener
unfolding Status.record_discovery
record_discovery env mac l = elim l.status [
  | none ↦ l
  | some s ↦ record {
    world = read_clock l.world;
    status = some (Status.record_discovery (now env l.world) mac s);
  }
]

-- What every scanner does with a device that it discovered.
unfoldable pub discover :
    Outside → DeviceEventScanner → (mac ipv4 : Text) → List Text → Option Text → Listener → Listener
unfolding build_device record_and_notify record_discovery
discover o scanner mac ipv4 hints name l =
    let device = build_device o.vendor_data (now o.env l.world) mac ipv4 hints name in
    record_discovery o.env mac (record l {
      world = record_and_notify o.env o.duration_text device scanner (read_clock l.world);
    })

abbrev ip_or_empty : Option Ipv4Addr → Text
ip_or_empty none = []
ip_or_empty (some ip) = ip_text ip

-- dhcp/scanner.rs, `process_discovery`.
unfoldable pub process_discovery : Outside → DhcpDiscovery → Listener → Listener
unfolding discover ip_text
process_discovery o d l = discover o dhcp d.mac (ip_or_empty d.ip_hint) [] d.hostname l

-- A packet that is no client request is skipped.
abbrev process_parsed : Outside → Option DhcpDiscovery → Listener → Listener
process_parsed o none l = l
process_parsed o (some d) l = process_discovery o d l

unfoldable pub dhcp_datagram : Outside → IpAddr → List ℕ → Neighbours → Listener → Listener
unfolding parse_packet process_discovery
dhcp_datagram o src buf neighbours l = process_parsed o (parse_packet buf) l

-- mdns/scanner.rs and ssdp/scanner.rs, `process_announcement`: an address whose MAC cannot be
-- resolved is skipped.
abbrev process_resolved :
    Outside
    → DeviceEventScanner
    → Ipv4Addr
    → Option Text
    → List Text
    → Option Text
    → Listener
    → Listener
process_resolved o scanner src_ip none hints name l = l
process_resolved o scanner src_ip (some mac) hints name l =
    discover o scanner mac (ip_text src_ip) hints name l

unfoldable pub process_announcement :
    Outside
    → DeviceEventScanner
    → Ipv4Addr
    → Neighbours
    → List Text
    → Option Text
    → Listener
    → Listener
unfolding resolve_mac_address discover ip_text
process_announcement o scanner src_ip neighbours hints name l =
    let interface = o.env.settings.networking.interface in
    process_resolved o scanner src_ip (resolve_mac_address o.parse_mac interface neighbours src_ip)
      hints name l

-- Only an announcement with a host name is processed, with the first.
abbrev process_named : Outside → Ipv4Addr → Neighbours → List Text → List Text → Listener → Listener
process_named o src_ip neighbours [] services l = l
process_named o src_ip neighbours (hostname ∷ _) services l =
    process_announcement o mdns src_ip neighbours services (some hostname) l

unfoldable pub mdns_datagram : Outside → IpAddr → List ℕ → Neighbours → Listener → Listener
unfolding process_announcement Mdns.parse_announcement
mdns_datagram o (v6 _) buf neighbours l = l
mdns_datagram o (v4 src_ip) buf neighbours l =
    let announcement = Mdns.parse_announcement (o.parse_dns buf) in
    process_named o src_ip neighbours announcement.hostnames announcement.service_types l

abbrev process_notified :
    Outside → Ipv4Addr → Neighbours → Option Ssdp.Announcement → Listener → Listener
process_notified o src_ip neighbours none l = l
process_notified o src_ip neighbours (some announcement) l =
    process_announcement o ssdp src_ip neighbours announcement.device_types announcement.server l

unfoldable pub ssdp_datagram : Outside → IpAddr → List ℕ → Neighbours → Listener → Listener
unfolding process_announcement Ssdp.parse_announcement
ssdp_datagram o (v6 _) buf neighbours l = l
ssdp_datagram o (v4 src_ip) buf neighbours l =
    process_notified o src_ip neighbours (Ssdp.parse_announcement buf) l

-- The loop that the three share: it ends at the shutdown, and waits at the end of the list.
unfoldable pub listen_loop :
    (IpAddr → List ℕ → Neighbours → Listener → Listener) → List Incoming → Listener → Listener
listen_loop handle [] l = l
listen_loop handle (cancelled ∷ rest) l = l
listen_loop handle (receive_error ∷ rest) l = listen_loop handle rest l
listen_loop handle (datagram src buf neighbours ∷ rest) l =
    listen_loop handle rest (handle src buf neighbours l)

-- An error of `open_socket`.
pub data SocketError : Type 0 where
  not_opened : SocketError

-- `listen`, where `opened` says whether the socket could be opened.
unfoldable pub listen :
    Env
    → Bool
    → (opened : Bool) → (IpAddr → List ℕ → Neighbours → Listener → Listener)
    → List Incoming
    → Listener
    → Result SocketError (Unit {0}) × Listener
unfolding set_listening listen_loop
listen env false opened handle incoming l = (ok tt, l)
listen env true false handle incoming l = (err not_opened, l)
listen env true true handle incoming l = (ok tt, listen_loop handle incoming (set_listening env l))

abbrev pub dhcp_listen :
    Outside → Bool → List Incoming → Listener → Result SocketError (Unit {0}) × Listener
dhcp_listen o opened incoming l =
    listen o.env o.env.settings.dhcp_scanner.enabled opened (dhcp_datagram o) incoming l

abbrev pub mdns_listen :
    Outside → Bool → List Incoming → Listener → Result SocketError (Unit {0}) × Listener
mdns_listen o opened incoming l =
    listen o.env o.env.settings.mdns_scanner.enabled opened (mdns_datagram o) incoming l

abbrev pub ssdp_listen :
    Outside → Bool → List Incoming → Listener → Result SocketError (Unit {0}) × Listener
ssdp_listen o opened incoming l =
    listen o.env o.env.settings.ssdp_scanner.enabled opened (ssdp_datagram o) incoming l
