-- ===== src/Tests/Rounds.antt =====
-- The running program: rounds of its tasks, and requests between them.
use oott.Prelude.{
  ℕ, ◌+◌, ◌≤◌, Bool, true, false, ◌≡◌, refl, none, some, List, [], ◌∷◌, length, leb→le,
}
use oott.Prelude.Text.{bytes, decimal}
use oott.Db.Devices.Keys.{HasUniqueMacs}
use oott.Notify.Relay.{Relay}
use oott.Utils.Network.{NetworkInterface, v4}
use oott.Utils.Probing.{Received, failed, frame, ethernet, ethertype_arp, operation_reply}
use oott.Scanners.Ipv4.{Ipv4Addr, ipv4}
use oott.Scanners.Listening.{Outside}
use oott.Scanners.Listening as Listening
use oott.Scanners.Polling.{Poller, set_running}
use oott.Scanners.Polling.Recruiting.{IsRecruited}
use oott.Scanners.Arp.{ArpAnswer, poll}
use oott.Scanners.Arp as Arp
use oott.Scanners.Polling as Polling
use oott.Scanners.Arp.Rounds.{poll-IsRecruited}
use oott.Scanners.ActiveStatus as Active
use oott.Scanners.PassiveStatus as Passive
use oott.System.{System, Activity, arp_scans, dhcp_hears, delivery_receives, sweeps}
use oott.System as System
use oott.System.Watch.{all_candidates, run-IsRecruited}
use oott.System.Api.{
  Event, round, request, devices_register, devices_delete, notifications_test, live,
}
use oott.System.Api.Invariants.{is_admitted, live-admitted_keys}
use oott.Prelude.{keep}
use oott.Prelude.Text.{text_eq}
use oott.Tests.Fixture.{network-HasUniqueMacs, faulty_env, network}

abbrev pub relay : Relay
relay _ _ = none

abbrev pub outside : Outside
outside = record {
  env = faulty_env;
  vendor_data = record {
    mac_vendors = λ t. none;
    service_vendors = λ t. none;
    vendor_device_types = λ t. none;
    to_uppercase = λ t. t;
    to_lowercase = λ t. t;
  };
  duration_text = decimal;
  parse_dns = λ buf. none;
  parse_mac = λ t. some t;
}

abbrev eth0 : NetworkInterface
eth0 = record {
  name = bytes "eth0";
  mac = some (bytes "02:00:00:00:00:01");
  ips = v4 (ipv4 192 168 1 2) ∷ [];
  is_up = true;
  is_loopback = false;
}

-- The reply of a new device.
abbrev reply_of : Ipv4Addr → Received
reply_of ip = frame (record {
  destination = bytes "02:00:00:00:00:01";
  source = bytes "aa:bb:cc:00:00:09";
  ethertype = ethertype_arp;
  payload = some (record {
    hardware_type = 1;
    protocol_type = 2048;
    hw_addr_len = 6;
    proto_addr_len = 4;
    operation = operation_reply;
    sender_hw_addr = bytes "aa:bb:cc:00:00:09";
    sender_proto_addr = ip;
    target_hw_addr = bytes "02:00:00:00:00:01";
    target_proto_addr = ipv4 192 168 1 2;
  });
})

abbrev pub answer : ArpAnswer
answer = record {
  interfaces = eth0 ∷ [];
  channel = some ethernet;
  received = failed ∷ reply_of (ipv4 192 168 1 9) ∷ [];
  timed_out = false;
}

abbrev pub poller : Poller
poller = record { world = network; status = some Active.new_status }

poll-IsRecruited_example :
    let w = (poll outside answer (set_running outside.env poller)).1.world in
    IsRecruited (length answer.received) poller.world w
    × (length w.tables.notifications ≤ length poller.world.tables.notifications + 3)
    × (length w.queue ≤ length poller.world.queue + 3)
    × HasUniqueMacs w.tables.devices
    × (length w.queue ≤ 100)
poll-IsRecruited_example =
    poll-IsRecruited outside answer poller network-HasUniqueMacs (leb→le 0 100 refl)

abbrev pub system : System
system = record {
  world = network;
  arp = some Active.new_status;
  snmp = none;
  mdns = none;
  ssdp = none;
  dhcp = some Passive.new_status;
  is_set = true;
  delivered = [];
}

abbrev activities : List (Activity ℕ)
activities =
    arp_scans answer
    ∷ dhcp_hears (Listening.v4 (ipv4 192 168 1 9)) []
        (record { proc_net_arp = none; interfaces = []; channel = none; received = [] })
    ∷ delivery_receives
    ∷ sweeps
    ∷ []

run-IsRecruited_example :
    let w = (System.run outside (λ oid. none) relay activities system).world in
    IsRecruited (all_candidates activities) system.world w
    × HasUniqueMacs w.tables.devices
    × (length w.queue ≤ 100)
run-IsRecruited_example =
    run-IsRecruited outside (λ (oid : ℕ). none) relay activities system network-HasUniqueMacs
      (leb→le 0 100 refl)

-- Where no interface can be used, the scanner ends, and its status says that a scan is running.
abbrev pub no_interface : ArpAnswer
no_interface = record answer { interfaces = [] }

abbrev is_shown_running : Active.StatusCell → Bool
is_shown_running none = false
is_shown_running (some s) = s.is_running

scan_without_interface :
    let r = Arp.scan outside (Polling.answer no_interface ∷ []) poller in
    (r.0 ≡ Polling.failed Arp.invalid_device) × (is_shown_running r.1.status ≡ true)
unfolding Arp.scan
scan_without_interface = (refl, refl)

-- A frame with a truncated ARP packet ends the scanner by a panic.
abbrev pub truncated : ArpAnswer
truncated = record answer {
  received =
      frame (record {
        destination = bytes "02:00:00:00:00:01";
        source = bytes "aa:bb:cc:00:00:09";
        ethertype = ethertype_arp;
        payload = none;
      })
      ∷ [];
}

scan_of_truncated : (Arp.scan outside (Polling.answer truncated ∷ []) poller).0 ≡ Polling.panicked
unfolding Arp.scan
scan_of_truncated = refl

abbrev pub events : List (Event ℕ)
events =
    request (some (bytes "Bearer secret")) (
      devices_register (record {
        mac_address = bytes "AA:BB:CC:00:00:01";
        owner = bytes "Bob";
        device_type = [];
        name = none;
      }))
    ∷ round (arp_scans answer)
    ∷ request (some (bytes "Bearer guess")) (devices_delete (bytes "aa:bb:cc:00:00:01"))
    ∷ request none notifications_test
    ∷ round delivery_receives
    ∷ []

live-admitted_keys_example :
    let w = (live outside (λ oid. none) relay events system).world in
    HasUniqueMacs w.tables.devices
    × (length w.queue ≤ 100)
    × (live outside (λ oid. none) relay (keep (is_admitted outside.env.settings) events) system
        ≡ live outside (λ oid. none) relay events system)
live-admitted_keys_example =
    live-admitted_keys outside (λ (oid : ℕ). none) relay events system network-HasUniqueMacs
      (leb→le 0 100 refl)

-- Three of the five events are left.
events_admitted : length (keep (is_admitted outside.env.settings) events) ≡ 3
unfolding text_eq
events_admitted = refl
