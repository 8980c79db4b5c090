-- ===== src/System.antt =====
-- backend/src/main.rs: the tasks that run at once, each a sequence of rounds, in any order of these.
pub mod Watch
pub mod Api
pub mod Startup
pub mod Shutdown
use oott.Prelude.{ℕ, Bool, Option, List, [], ◌∷◌, if◌then◌else◌}
use oott.Prelude.Text.{bytes, text_eq}
use oott.Settings.{Log}
use oott.Utils.Probing.{Neighbours}
use oott.Db.{World, DeliveryRequest}
use oott.Notify.Relay.{Relay}
use oott.Notify.Delivering.{Delivery, Fate, start, receive, stop}
use oott.Retention.{sweep}
use oott.Scanners.ActiveStatus.{StatusCell}
use oott.Scanners.ActiveStatus as Active
use oott.Scanners.PassiveStatus.{PassiveStatusCell}
use oott.Scanners.PassiveStatus as Passive
use oott.Scanners.Listening.{Outside, IpAddr, dhcp_datagram, mdns_datagram, ssdp_datagram}
use oott.Scanners.Polling.{set_running}
use oott.Scanners.Arp.{ArpAnswer}
use oott.Scanners.Arp as Arp
use oott.Scanners.Snmp.{ObjectValue}
use oott.Scanners.Snmp.Finding as Snmp

-- `log::LevelFilter`, and the level of the settings.
pub data LevelFilter : Type 0 where
  off error warn info debug trace : LevelFilter

unfoldable pub log_level : Log → LevelFilter
unfolding text_eq
log_level log =
    if text_eq log.level (bytes "off")
    then off
    else if text_eq log.level (bytes "error")
    then error
    else if text_eq log.level (bytes "warn")
    then warn
    else if text_eq log.level (bytes "info")
    then info
    else if text_eq log.level (bytes "debug")
    then debug
    else if text_eq log.level (bytes "trace")
    then trace
    else error

-- The state that the tasks share: the database and the queue, the status of each scanner, and the
-- delivery loop.
pub record System : Type 0 where
  pub world : World
  pub arp : StatusCell
  pub snmp : StatusCell
  pub mdns : PassiveStatusCell
  pub ssdp : PassiveStatusCell
  pub dhcp : PassiveStatusCell
  pub is_set : Bool
  pub delivered : List (DeliveryRequest × Fate)

-- The `STATUS.init()` of `main`.
unfoldable pub init_statuses : System → System
unfolding Active.init Passive.init
init_statuses s = record s {
  arp = Active.init s.arp;
  snmp = Active.init s.snmp;
  mdns = Passive.init s.mdns;
  ssdp = Passive.init s.ssdp;
  dhcp = Passive.init s.dhcp;
}

-- A round of one task, with what the outside answers to it.
pub data Activity (Oid : Type 0) : Type 0 where
  arp_scans : ArpAnswer → Activity Oid
  snmp_scans : Option (List (Oid × ObjectValue)) → Activity Oid
  mdns_hears ssdp_hears dhcp_hears : IpAddr → List ℕ → Neighbours → Activity Oid
  delivery_starts delivery_receives delivery_stops sweeps : Activity Oid

abbrev delivery : System → Delivery
delivery s = record { world = s.world; is_set = s.is_set; delivered = s.delivered }

abbrev with_delivery : Delivery → System → System
with_delivery d s = record s { world = d.world; is_set = d.is_set; delivered = d.delivered }

module _ {Oid : Type 0} (o : Outside) (relative_to : Oid → Option (List ℕ)) (relay : Relay) where
  unfoldable pub act : Activity Oid → System → System
  unfolding set_running Arp.poll Snmp.poll mdns_datagram ssdp_datagram dhcp_datagram start receive
      stop sweep
  act (arp_scans a) s =
      let p = (Arp.poll o a (set_running o.env (record { world = s.world; status = s.arp }))).1 in
      record s { world = p.world; arp = p.status }
  act (snmp_scans walked) s =
      let p =
        (Snmp.poll o relative_to walked
          (set_running o.env (record { world = s.world; status = s.snmp }))).1 in
      record s { world = p.world; snmp = p.status }
  act (mdns_hears src buf n) s =
      let l = mdns_datagram o src buf n (record { world = s.world; status = s.mdns }) in
      record s { world = l.world; mdns = l.status }
  act (ssdp_hears src buf n) s =
      let l = ssdp_datagram o src buf n (record { world = s.world; status = s.ssdp }) in
      record s { world = l.world; ssdp = l.status }
  act (dhcp_hears src buf n) s =
      let l = dhcp_datagram o src buf n (record { world = s.world; status = s.dhcp }) in
      record s { world = l.world; dhcp = l.status }
  act delivery_starts s = with_delivery (start (delivery s)) s
  act delivery_receives s = with_delivery (receive o.env relay (delivery s)) s
  act delivery_stops s = with_delivery (stop (delivery s)) s
  act sweeps s = record s { world = sweep o.env s.world }

  unfoldable pub run : List (Activity Oid) → System → System
  unfolding act
  run [] s = s
  run (a ∷ activities) s = run activities (act a s)
