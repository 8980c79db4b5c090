-- ===== src/Scanners/Polling/Scans.antt =====
-- The status of the ARP and of the SNMP scanner after any rounds of their loops.
use oott.Prelude.{ℕ, true, false, ◌≡◌, Option, List, ◌∷◌, is_some}
use oott.Prelude.Text.{is_empty}
use oott.Scanners.Listening.{Outside}
use oott.Scanners.Polling.{Poller, Round}
use oott.Scanners.Polling.Showing.{
  IsScanning, EndShows, TaskShows, await_next-EndShows, process_devices-IsScanning,
  poll_loop-TaskShows,
}
use oott.Model.DeviceEvent.{arp, snmp}
use oott.Db.{World}
use oott.Scanners.Arp as Arp
use oott.Scanners.Snmp.{ObjectValue}
use oott.Scanners.Snmp.Finding as Snmp

arp-EndShows :
    (o : Outside) (r : Arp.Found × World) (p : Poller)
    → IsScanning p.status
    → EndShows (Arp.after_find o r p)
unfolding Arp.after_find
arp-EndShows o (Arp.broken, w) p h = h
arp-EndShows o (Arp.no_scan e, w) p h = h
arp-EndShows o (Arp.found devices, w) p h =
    await_next-EndShows Arp.ScanError o.env o.env.settings.arp_scanner.wait_between_scans _
      (process_devices-IsScanning o.env o.duration_text arp devices (record p { world = w }) h)

snmp-EndShows :
    (o : Outside) (r : Snmp.Found × World) (p : Poller)
    → IsScanning p.status
    → EndShows (Snmp.after_find o r p)
unfolding Snmp.after_find
snmp-EndShows o (Snmp.broken, w) p h = h
snmp-EndShows o (Snmp.unreachable, w) p h =
    await_next-EndShows ⊥ o.env o.env.settings.snmp_scanner.wait_between_scans
      (record p { world = w }) h
snmp-EndShows o (Snmp.found devices, w) p h =
    await_next-EndShows ⊥ o.env o.env.settings.snmp_scanner.wait_between_scans _
      (process_devices-IsScanning o.env o.duration_text snmp devices (record p { world = w }) h)

-- After any rounds of the loop, at least one, of an ARP scanner that is enabled and whose status is
-- initialised, with whatever packets, answers and faults: while the task sleeps between two rounds,
-- the status says that no scan runs and when the next one begins; after the shutdown it says that or
-- that a scan runs; after an error or a panic it says that a scan runs, since a known time, and
-- announces none.
pub arp_scan-TaskShows :
    (o : Outside) (first : Round Arp.ArpAnswer) (rounds : List (Round Arp.ArpAnswer)) (p : Poller)
    → o.env.settings.arp_scanner.enabled ≡ true
    → is_some p.status ≡ true
    → let t = Arp.scan o (first ∷ rounds) p in TaskShows t.0 t.1.status
unfolding Arp.scan Arp.poll
arp_scan-TaskShows o first rounds p enabled h = rw enabled (
    poll_loop-TaskShows o.env (Arp.poll o)
      (λ a q k. arp-EndShows o (Arp.find o o.env.settings.networking.interface a q.world) q k) first
      rounds p h)

-- The SNMP scanner's status likewise, where its target is set; its task never ends with an error.
pub snmp_scan-TaskShows :
    {Oid : Type 0} (o : Outside) (relative_to : Oid → Option (List ℕ))
    (first : Round (Option (List (Oid × ObjectValue))))
    (rounds : List (Round (Option (List (Oid × ObjectValue))))) (p : Poller)
    → o.env.settings.snmp_scanner.enabled ≡ true
    → is_empty o.env.settings.snmp_scanner.target ≡ false
    → is_some p.status ≡ true
    → let t = Snmp.scan o relative_to (first ∷ rounds) p in TaskShows t.0 t.1.status
unfolding Snmp.scan Snmp.poll
snmp_scan-TaskShows o relative_to first rounds p enabled target h = rw enabled (
    rw target (
      poll_loop-TaskShows o.env (Snmp.poll o relative_to)
        (λ walked q k. snmp-EndShows o (Snmp.find o relative_to walked q.world) q k) first rounds p
        h))
