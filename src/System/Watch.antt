-- ===== src/System/Watch.antt =====
-- What no run of the tasks does, whatever the network says and whatever fails.
use oott.Prelude.{ℕ, ◌+◌, ◌≤◌, ◌≡◌, refl, Option, List, [], ◌∷◌, length, arith}
use oott.Db.{World, Env}
use oott.Db.Devices.Keys.{HasUniqueMacs}
use oott.Db.DeviceEvents as Events
use oott.Db.Notifications as Notices
use oott.Notify.Relay.{Relay}
use oott.Notify.Delivering.{Delivery, receive, start}
use oott.Notify.Delivering.Devices.{receive-IsShorter}
use oott.Retention.{purge, sweep}
use oott.Scanners.Listening.{Outside}
use oott.Scanners.Listening.Rounds.{
  dhcp_datagram-IsSurveyed, mdns_datagram-IsSurveyed, ssdp_datagram-IsSurveyed,
}
use oott.Scanners.Arp.Rounds as Arp
use oott.Scanners.Snmp.Finding.Rounds as Snmp
use oott.Scanners.Snmp.Finding.Rounds.{row_count}
use oott.Scanners.Polling.Recruiting.{IsRecruited, IsRecruited-same, IsRecruited-trans, IsSurveyed}
use oott.System.{
  System, Activity, arp_scans, snmp_scans, mdns_hears, ssdp_hears, dhcp_hears, delivery_starts,
  delivery_receives, delivery_stops, sweeps, delivery, act, run,
}

-- At most so many devices more, none of them registered, every other as it was registered, and the
-- bound of the queue and the keys of the devices kept.
pub record IsWatched (n : ℕ) (w w' : World) : Type 0 where
  pub recruited : IsRecruited n w w'
  pub bounded : length w.queue ≤ 100 → length w'.queue ≤ 100
  pub unique : HasUniqueMacs w.tables.devices → HasUniqueMacs w'.tables.devices

surveyed : (n : ℕ) (w w' : World) → IsSurveyed n w w' → IsWatched n w w'
surveyed n w w' h = record { recruited = h.recruited; bounded = h.bounded; unique = h.unique }

-- A step that leaves the devices and does not lengthen the queue.
quiet :
    (w w' : World)
    → w'.tables.devices ≡ w.tables.devices
    → length w'.queue ≤ length w.queue
    → IsWatched 0 w w'
quiet w w' e le = record {
  recruited = IsRecruited-same 0 w w' e;
  bounded = λ b. omega (arith, b, le);
  unique = λ u. rw e u;
}

IsWatched-trans :
    (m n : ℕ) (u v w : World) → IsWatched m u v → IsWatched n v w → IsWatched (m + n) u w
IsWatched-trans m n u v w h k = record {
  recruited = IsRecruited-trans m n (m + n) u v w (omega arith) h.recruited k.recruited;
  bounded = λ b. k.bounded (h.bounded b);
  unique = λ q. k.unique (h.unique q);
}

receive-IsWatched :
    (env : Env) (relay : Relay) (d : Delivery) → IsWatched 0 d.world (receive env relay d).world
receive-IsWatched env relay d =
    let h = receive-IsShorter env relay d in
    quiet d.world (receive env relay d).world h.devices h.queue

sweep-IsWatched : (env : Env) (w : World) → IsWatched 0 w (sweep env w)
unfolding sweep purge Events.purge_older_than Notices.purge_older_than
sweep-IsWatched env w = quiet w (sweep env w) (ground arith) (ground arith)

-- How many devices an activity can bring at most.
abbrev pub candidates : {Oid : Type 0} → Activity Oid → ℕ
candidates (arp_scans a) = length a.received
candidates (snmp_scans walked) = row_count walked
candidates (mdns_hears src buf n) = 1
candidates (ssdp_hears src buf n) = 1
candidates (dhcp_hears src buf n) = 1
candidates delivery_starts = 0
candidates delivery_receives = 0
candidates delivery_stops = 0
candidates sweeps = 0

abbrev pub all_candidates : {Oid : Type 0} → List (Activity Oid) → ℕ
all_candidates [] = 0
all_candidates (a ∷ rest) = candidates a + all_candidates rest

start-IsWatched : (d : Delivery) → IsWatched 0 d.world (start d).world
unfolding start
start-IsWatched d = quiet d.world (start d).world (ground arith) (ground arith)

module _ {Oid : Type 0} (o : Outside) (relative_to : Oid → Option (List ℕ)) (relay : Relay) where
  pub act-IsWatched :
      (a : Activity Oid) (s : System)
      → IsWatched (candidates a) s.world (act o relative_to relay a s).world
  unfolding act
  act-IsWatched (arp_scans a) s =
      surveyed (length a.received) s.world _
        (Arp.poll-IsSurveyed o a (record { world = s.world; status = s.arp }))
  act-IsWatched (snmp_scans walked) s = surveyed (row_count walked) s.world _ (
      Snmp.poll_of_agent-IsSurveyed o relative_to walked
        (record { world = s.world; status = s.snmp }))
  act-IsWatched (mdns_hears src buf n) s =
      surveyed 1 s.world _
        (mdns_datagram-IsSurveyed o src buf n (record { world = s.world; status = s.mdns }))
  act-IsWatched (ssdp_hears src buf n) s =
      surveyed 1 s.world _
        (ssdp_datagram-IsSurveyed o src buf n (record { world = s.world; status = s.ssdp }))
  act-IsWatched (dhcp_hears src buf n) s =
      surveyed 1 s.world _
        (dhcp_datagram-IsSurveyed o src buf n (record { world = s.world; status = s.dhcp }))
  act-IsWatched delivery_starts s = start-IsWatched (delivery s)
  act-IsWatched delivery_receives s = receive-IsWatched o.env relay (delivery s)
  act-IsWatched delivery_stops s = quiet s.world _ refl (omega arith)
  act-IsWatched sweeps s = sweep-IsWatched o.env s.world

  watched :
      (activities : List (Activity Oid)) (s : System)
      → IsWatched (all_candidates activities) s.world (run o relative_to relay activities s).world
  unfolding run
  watched [] s = quiet s.world s.world refl (omega arith)
  watched (a ∷ rest) s =
      let s' = act o relative_to relay a s in
      IsWatched-trans (candidates a) (all_candidates rest) s.world s'.world
        (run o relative_to relay rest s').world (act-IsWatched a s) (watched rest s')

  -- However the rounds of the five scanners, the delivery loop and the sweep follow each other, with
  -- whatever packets, answers and faults: every device keeps its place, its address, its
  -- registration and its owner; the devices that come behind them are not registered and have no
  -- owner, at most one for each packet, row and datagram; no two devices have the same MAC address,
  -- and at most 100 notifications wait, if this holds at the beginning.
  pub run-IsRecruited :
      (activities : List (Activity Oid)) (s : System)
      → HasUniqueMacs s.world.tables.devices
      → length s.world.queue ≤ 100
      → let w = (run o relative_to relay activities s).world in
        IsRecruited (all_candidates activities) s.world w
        × HasUniqueMacs w.tables.devices
        × (length w.queue ≤ 100)
  run-IsRecruited activities s u b =
      let h = watched activities s in (h.recruited, h.unique u, h.bounded b)
