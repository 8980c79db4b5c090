-- ===== src/Scanners/Listening/Rounds.antt =====
-- A datagram that a passive scanner hears, whatever it holds.
use oott.Prelude.{ℕ, refl, Option, none, some, List, [], ◌∷◌, arith}
use oott.Prelude.Text.{Text}
use oott.Model.DeviceEvent.{DeviceEventScanner, dhcp, mdns, ssdp}
use oott.Utils.Probing.{Neighbours, resolve_mac_address}
use oott.Db.{Env, now, read_clock}
use oott.Scanners.Ipv4.{Ipv4Addr, ip_text}
use oott.Scanners.Enrichment.{build_device}
use oott.Scanners.Pipeline.{record_and_notify}
use oott.Scanners.Dhcp.{DhcpDiscovery, parse_packet}
use oott.Scanners.Mdns as Mdns
use oott.Scanners.Ssdp as Ssdp
use oott.Scanners.Listening.{
  Outside, IpAddr, v4, v6, Listener, record_discovery, discover, process_discovery, ip_or_empty,
  process_parsed, dhcp_datagram, process_resolved, process_announcement, process_named,
  mdns_datagram, process_notified, ssdp_datagram,
}
use oott.Scanners.Polling.Recruiting.{
  IsSurveyed, IsSurveyed-cong, IsSurveyed-same, SameData, record_and_notify-IsSurveyed,
}
use oott.Scanners.Polling.Rounds.{build_device-IsUnowned, same}

record_discovery-SameData :
    (env : Env) (mac : Text) (l : Listener) → SameData l.world (record_discovery env mac l).world
unfolding record_discovery
record_discovery-SameData env mac l = ground arith

module _ (o : Outside) where
  discover-IsSurveyed :
      (s : DeviceEventScanner) (mac ip : Text) (hints : List Text) (name : Option Text)
      (l : Listener)
      → IsSurveyed 1 l.world (discover o s mac ip hints name l).world
  unfolding discover
  discover-IsSurveyed s mac ip hints name l =
      let d = build_device o.vendor_data (now o.env l.world) mac ip hints name in
      let w = record_and_notify o.env o.duration_text d s (read_clock l.world) in
      IsSurveyed-cong 1 l.world (read_clock l.world) w (discover o s mac ip hints name l).world
        (record { tables = refl; queue = refl })
        (record_discovery-SameData o.env mac (record l { world = w }))
        (record_and_notify-IsSurveyed o.env o.duration_text s d (read_clock l.world)
          (build_device-IsUnowned o.vendor_data (now o.env l.world) mac ip hints name))

  parsed-IsSurveyed :
      (d : Option DhcpDiscovery) (l : Listener) → IsSurveyed 1 l.world (process_parsed o d l).world
  unfolding process_discovery
  parsed-IsSurveyed none l = IsSurveyed-same 1 l.world l.world (same l.world)
  parsed-IsSurveyed (some d) l =
      discover-IsSurveyed dhcp d.mac (ip_or_empty d.ip_hint) [] d.hostname l

  resolved-IsSurveyed :
      (s : DeviceEventScanner) (ip : Ipv4Addr) (mac : Option Text) (hints : List Text)
      (name : Option Text) (l : Listener)
      → IsSurveyed 1 l.world (process_resolved o s ip mac hints name l).world
  resolved-IsSurveyed s ip none hints name l = IsSurveyed-same 1 l.world l.world (same l.world)
  resolved-IsSurveyed s ip (some mac) hints name l =
      discover-IsSurveyed s mac (ip_text ip) hints name l

  announcement-IsSurveyed :
      (s : DeviceEventScanner) (ip : Ipv4Addr) (n : Neighbours) (hints : List Text)
      (name : Option Text) (l : Listener)
      → IsSurveyed 1 l.world (process_announcement o s ip n hints name l).world
  unfolding process_announcement
  announcement-IsSurveyed s ip n hints name l =
      resolved-IsSurveyed s ip
        (resolve_mac_address o.parse_mac o.env.settings.networking.interface n ip) hints name l

  named-IsSurveyed :
      (ip : Ipv4Addr) (n : Neighbours) (names services : List Text) (l : Listener)
      → IsSurveyed 1 l.world (process_named o ip n names services l).world
  named-IsSurveyed ip n [] services l = IsSurveyed-same 1 l.world l.world (same l.world)
  named-IsSurveyed ip n (h ∷ _) services l = announcement-IsSurveyed mdns ip n services (some h) l

  notified-IsSurveyed :
      (ip : Ipv4Addr) (n : Neighbours) (a : Option Ssdp.Announcement) (l : Listener)
      → IsSurveyed 1 l.world (process_notified o ip n a l).world
  notified-IsSurveyed ip n none l = IsSurveyed-same 1 l.world l.world (same l.world)
  notified-IsSurveyed ip n (some a) l = announcement-IsSurveyed ssdp ip n a.device_types a.server l

  pub dhcp_datagram-IsSurveyed :
      (src : IpAddr) (buf : List ℕ) (n : Neighbours) (l : Listener)
      → IsSurveyed 1 l.world (dhcp_datagram o src buf n l).world
  unfolding dhcp_datagram
  dhcp_datagram-IsSurveyed src buf n l = parsed-IsSurveyed (parse_packet buf) l

  pub mdns_datagram-IsSurveyed :
      (src : IpAddr) (buf : List ℕ) (n : Neighbours) (l : Listener)
      → IsSurveyed 1 l.world (mdns_datagram o src buf n l).world
  unfolding mdns_datagram
  mdns_datagram-IsSurveyed (v6 _) buf n l = IsSurveyed-same 1 l.world l.world (same l.world)
  mdns_datagram-IsSurveyed (v4 ip) buf n l =
      let a = Mdns.parse_announcement (o.parse_dns buf) in
      named-IsSurveyed ip n a.hostnames a.service_types l

  pub ssdp_datagram-IsSurveyed :
      (src : IpAddr) (buf : List ℕ) (n : Neighbours) (l : Listener)
      → IsSurveyed 1 l.world (ssdp_datagram o src buf n l).world
  unfolding ssdp_datagram
  ssdp_datagram-IsSurveyed (v6 _) buf n l = IsSurveyed-same 1 l.world l.world (same l.world)
  ssdp_datagram-IsSurveyed (v4 ip) buf n l =
      notified-IsSurveyed ip n (Ssdp.parse_announcement buf) l
