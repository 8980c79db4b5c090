-- ===== src/Scanners/Arp.antt =====
-- backend/src/scanners/arp: probing every address of the local network by ARP.
pub mod Rounds
use oott.Prelude.{
  Bool, not, ◌&&◌, Option, none, some, List, [], ◌∷◌, map, keep, ◌==◌, if◌then◌else◌,
}
use oott.Prelude.Text.{Text}
use oott.Model.Device.{Device}
use oott.Model.DeviceEvent.{arp}
use oott.Utils.Network.{NetworkInterface, select_interface, first_ipv4}
use oott.Utils.Probing.{
  ArpPacket, EthernetPacket, Received, failed, too_short, frame, Channel, ethernet, unsupported,
  arp_request, ethertype_arp, operation_reply,
}
use oott.Db.{World, now, read_clock}
use oott.Scanners.Ipv4.{Ipv4Addr, ip_eq, ip_text}
use oott.Scanners.Enrichment.{build_device}
use oott.Scanners.Listening.{Outside}
use oott.Scanners.Polling.{
  Poller, RoundEnd, panics, fails, TaskEnd, returned, Round, process_devices, await_next, poll_loop,
}

-- The errors of backend/src/scanners/error.rs.
pub data ScanError : Type 0 where
  invalid_device no_ip_address no_mac_address data_channel : ScanError

-- packet_send_receive.rs, `send_packet`: a request to each address of the network but the own one.
-- `addresses` are those that `ipnetwork` enumerates of the network.
unfoldable pub send_packet : List Ipv4Addr → Ipv4Addr → Text → List EthernetPacket
unfolding arp_request
send_packet addresses sender_ip sender_mac =
    map (arp_request sender_mac sender_ip) (keep (λ ip. not (ip_eq ip sender_ip)) addresses)

abbrev cons_device : Device → Option (List Device) × World → Option (List Device) × World
cons_device device (some devices, w) = (some (device ∷ devices), w)
cons_device device (none, w) = (none, w)

-- What a frame says: nothing, a reply to us, or that it cannot be read, which is a panic.
pub data Reading : Type 0 where
  irrelevant unreadable : Reading
  reply : ArpPacket → Reading

unfoldable pub read_frame : Ipv4Addr → EthernetPacket → Reading
read_frame own_ip eth =
    if eth.ethertype == ethertype_arp
    then elim eth.payload [
      | none ↦ unreadable
      | some a ↦
          if a.operation == operation_reply && ip_eq a.target_proto_addr own_ip
          then reply a
          else irrelevant
    ]
    else irrelevant

abbrev after_reading :
    Outside
    → Reading
    → (World → Option (List Device) × World)
    → World
    → Option (List Device) × World
after_reading o irrelevant rest w = rest w
after_reading o unreadable rest w = (none, w)
after_reading o (reply a) rest w =
    cons_device
      (build_device o.vendor_data (now o.env w) a.sender_hw_addr (ip_text a.sender_proto_addr) []
        none)
      (rest (read_clock w))

-- `listen_for_packets`, over what is received while the window is open. `none` is the panic of
-- `unwrap` on a packet that is too short.
unfoldable pub listen_for_packets :
    Outside → Ipv4Addr → List Received → World → Option (List Device) × World
unfolding read_frame build_device ip_text
listen_for_packets o own_ip [] w = (some [], w)
listen_for_packets o own_ip (failed ∷ rest) w = listen_for_packets o own_ip rest w
listen_for_packets o own_ip (too_short ∷ rest) w = (none, w)
listen_for_packets o own_ip (frame eth ∷ rest) w =
    after_reading o (read_frame own_ip eth) (λ v. listen_for_packets o own_ip rest v) w

-- What the network answers to a scan: the interfaces, the channel, the packets of the window, and
-- whether the receiver met its timeout, which loses what it received.
pub record ArpAnswer : Type 0 where
  pub interfaces : List NetworkInterface
  pub channel : Option Channel
  pub received : List Received
  pub timed_out : Bool

-- The result of a scan: devices, an error, or a panic.
pub data Found : Type 0 where
  found : List Device → Found
  no_scan : ScanError → Found
  broken : Found

abbrev receive : Bool → Option (List Device) × World → Found × World
receive timed_out (none, w) = (broken, w)
receive timed_out (some devices, w) = (found (if timed_out then [] else devices), w)

unfoldable pub receive_on : Outside → Option Channel → Ipv4Addr → ArpAnswer → World → Found × World
unfolding listen_for_packets
receive_on o (some ethernet) own_ip a w =
    receive a.timed_out (listen_for_packets o own_ip a.received w)
receive_on o (some unsupported) own_ip a w = (no_scan data_channel, w)
receive_on o none own_ip a w = (no_scan data_channel, w)

-- The first IPv4 address of the interface, and its MAC address.
unfoldable pub find_from :
    Outside → Option Ipv4Addr → Option Text → ArpAnswer → World → Found × World
unfolding receive_on
find_from o none mac a w = (no_scan no_ip_address, w)
find_from o (some ip) none a w = (no_scan no_mac_address, w)
find_from o (some ip) (some mac) a w = receive_on o a.channel ip a w

unfoldable pub find_on : Outside → Option NetworkInterface → ArpAnswer → World → Found × World
unfolding first_ipv4 find_from
find_on o none a w = (no_scan invalid_device, w)
find_on o (some iface) a w = find_from o (first_ipv4 iface.ips) iface.mac a w

-- finder.rs, `find`. The answer is what comes back for the requests of `send_packet`, all of them
-- or those that its timeout let through.
unfoldable pub find : Outside → Option Text → ArpAnswer → World → Found × World
unfolding select_interface find_on
find o interface a w = find_on o (select_interface a.interfaces interface) a w

-- The part of a round of scanner.rs behind the probe: an error ends the task by `?`.
unfoldable pub after_find : Outside → Found × World → Poller → RoundEnd ScanError × Poller
unfolding process_devices await_next
after_find o (broken, w) p = (panics, record p { world = w })
after_find o (no_scan e, w) p = (fails e, record p { world = w })
after_find o (found devices, w) p =
    await_next o.env o.env.settings.arp_scanner.wait_between_scans
      (process_devices o.env o.duration_text arp devices (record p { world = w }))

unfoldable pub poll : Outside → ArpAnswer → Poller → RoundEnd ScanError × Poller
unfolding find after_find
poll o a p = after_find o (find o o.env.settings.networking.interface a p.world) p

-- `scan`.
unfoldable pub scan : Outside → List (Round ArpAnswer) → Poller → TaskEnd ScanError × Poller
unfolding poll_loop poll
scan o rounds p =
    if o.env.settings.arp_scanner.enabled then poll_loop o.env (poll o) rounds p else (returned, p)
