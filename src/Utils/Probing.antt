-- ===== src/Utils/Probing.antt =====
-- backend/src/utils/network.rs: finding the MAC address of an IPv4 address, in the cache of the
-- system or by an ARP probe, and the packets of the probe.
use oott.Prelude.{ℕ, ◌&&◌, Option, none, some, List, [], ◌∷◌, ◌==◌, if◌then◌else◌}
use oott.Prelude.Text.{Text, bytes}
use oott.Scanners.Ipv4.{Ipv4Addr, ip_eq, ip_text}
use oott.Utils.Network.{NetworkInterface, select_interface, first_ipv4, parse_proc_net_arp}

-- The fields of `pnet`'s packets.
pub record ArpPacket : Type 0 where
  pub hardware_type : ℕ
  pub protocol_type : ℕ
  pub hw_addr_len : ℕ
  pub proto_addr_len : ℕ
  pub operation : ℕ
  pub sender_hw_addr : Text
  pub sender_proto_addr : Ipv4Addr
  pub target_hw_addr : Text
  pub target_proto_addr : Ipv4Addr

-- The payload of a frame as an ARP packet; `none` is a payload too short for one.
pub record EthernetPacket : Type 0 where
  pub destination : Text
  pub source : Text
  pub ethertype : ℕ
  pub payload : Option ArpPacket

-- What a receiver gives: an error, bytes too short for a frame, or a frame.
pub data Received : Type 0 where
  failed too_short : Received
  frame : EthernetPacket → Received

-- `EtherTypes`, `ArpOperations` and `ArpHardwareTypes`.
abbrev pub ethertype_ipv4 : ℕ
ethertype_ipv4 = 0x0800

abbrev pub ethertype_arp : ℕ
ethertype_arp = 0x0806

abbrev pub operation_request : ℕ
operation_request = 1

abbrev pub operation_reply : ℕ
operation_reply = 2

abbrev pub hardware_ethernet : ℕ
hardware_ethernet = 1

-- The frame that asks for the MAC address of an IPv4 address.
unfoldable pub arp_request : Text → Ipv4Addr → Ipv4Addr → EthernetPacket
arp_request source_mac source_ip target_ip = record {
  destination = bytes "ff:ff:ff:ff:ff:ff";
  source = source_mac;
  ethertype = ethertype_arp;
  payload = some (record {
    hardware_type = hardware_ethernet;
    protocol_type = ethertype_ipv4;
    hw_addr_len = 6;
    proto_addr_len = 4;
    operation = operation_request;
    sender_hw_addr = source_mac;
    sender_proto_addr = source_ip;
    target_hw_addr = bytes "00:00:00:00:00:00";
    target_proto_addr = target_ip;
  });
}

abbrev answered : Ipv4Addr → Option ArpPacket → Option Text
answered target_ip none = none
answered target_ip (some arp) =
    if arp.operation == operation_reply && ip_eq arp.sender_proto_addr target_ip
    then some arp.sender_hw_addr
    else none

abbrev or_later : Option Text → Option Text → Option Text
or_later (some mac) rest = some mac
or_later none rest = rest

-- The loop over what is received up to the deadline: errors and other packets are skipped.
unfoldable pub await_reply : Ipv4Addr → List Received → Option Text
await_reply target_ip [] = none
await_reply target_ip (failed ∷ rest) = await_reply target_ip rest
await_reply target_ip (too_short ∷ rest) = await_reply target_ip rest
await_reply target_ip (frame eth ∷ rest) =
    let later = await_reply target_ip rest in
    if eth.ethertype == ethertype_arp
    then or_later (answered target_ip eth.payload) later
    else later

-- `Channel`, as `datalink::channel` opens it.
pub data Channel : Type 0 where
  ethernet unsupported : Channel

-- What the system answers while a MAC address is looked up: the lines of /proc/net/arp, split at
-- white space, if the file can be read, the interfaces, the channel, and what is received on it up
-- to the deadline.
pub record Neighbours : Type 0 where
  pub proc_net_arp : Option (List (List Text))
  pub interfaces : List NetworkInterface
  pub channel : Option Channel
  pub received : List Received

abbrev receive_on : Option Channel → Ipv4Addr → List Received → Option Text
receive_on (some ethernet) target_ip received = await_reply target_ip received
receive_on _ target_ip received = none

abbrev probe_from : Option Text → Option Ipv4Addr → Neighbours → Ipv4Addr → Option Text
probe_from (some source_mac) (some source_ip) n target_ip =
    receive_on n.channel target_ip n.received
probe_from _ _ n target_ip = none

-- `probe_mac`: the answer to the request that it sends.
unfoldable pub probe_mac : Option Text → Neighbours → Ipv4Addr → Option Text
unfolding select_interface first_ipv4 await_reply
probe_mac interface n target_ip = elim (select_interface n.interfaces interface) [
  | none ↦ none
  | some iface ↦ probe_from iface.mac (first_ipv4 iface.ips) n target_ip
]

abbrev resolve_cached : (Text → Option Text) → Option Text → Option Text → Option Text
resolve_cached parse_mac (some mac) probed = parse_mac mac
resolve_cached parse_mac none probed = probed

-- `resolve_mac_address`: what the cache of the system holds, and else the probe. `parse_mac` is the
-- text of the `MacAddr` that `pnet` parses.
unfoldable pub resolve_mac_address :
    (Text → Option Text) → Option Text → Neighbours → Ipv4Addr → Option Text
unfolding parse_proc_net_arp probe_mac ip_text
resolve_mac_address parse_mac interface n ip = elim n.proc_net_arp [
  | none ↦ probe_mac interface n ip
  | some lines ↦
      resolve_cached parse_mac (parse_proc_net_arp lines (ip_text ip)) (probe_mac interface n ip)
]
