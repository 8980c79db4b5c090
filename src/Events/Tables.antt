-- ===== src/Events/Tables.antt =====
-- What recording events leaves alone: every table but that of the events, and the queue.
use oott.Prelude.{suc, Bool, ◌≡◌, List, [], ◌∷◌, arith}
use oott.Model.Device.{Device}
use oott.Model.DeviceEvent.{DeviceEvent, DeviceEventScanner, DeviceEventType, DeviceChange}
use oott.Db.{World, Env, now, read_clock}
use oott.Db.DeviceEvents.{recent_duplicate_exists, insert}
use oott.Events.{
  record_event, device_event, record_changes, record_known_device, record_new_device,
  event_type_for,
}
use oott.Events.Detection.{detect_known_device_changes}

-- Two worlds that differ at most in the events and in what has been asked of the outside.
pub record SameBut (w w' : World) : Type 0 where
  pub devices : w'.tables.devices ≡ w.tables.devices
  pub notifications : w'.tables.notifications ≡ w.tables.notifications
  pub push_tokens : w'.tables.push_tokens ≡ w.tables.push_tokens
  pub delivery_tx : w'.delivery_tx ≡ w.delivery_tx
  pub queue : w'.queue ≡ w.queue

pub SameBut-trans : {u v w : World} → SameBut u v → SameBut v w → SameBut u w
SameBut-trans h k = ground arith

record_event-SameBut :
    (env : Env) (e : DeviceEvent) (w : World) → SameBut w (record_event env e w).1
unfolding record_event recent_duplicate_exists insert
record_event-SameBut env e w = ground arith

-- Each recorded event reads the clock once.
clock_reads-record_event :
    (env : Env) (e : DeviceEvent) (w : World)
    → (record_event env e w).1.clock_reads ≡ suc w.clock_reads
unfolding record_event recent_duplicate_exists insert
clock_reads-record_event env e w = ground arith

device_event-SameBut :
    (env : Env) (d : Device) (k : DeviceEventType) (s : DeviceEventScanner) (w : World)
    → SameBut w (device_event env d k s w).1
unfolding device_event
device_event-SameBut env d k s w = ground arith

-- An event that is described and then recorded.
abbrev pub recorded : Env → Device → DeviceEventType → DeviceEventScanner → World → Bool × World
recorded env d k s w = record_event env (device_event env d k s w).0 (device_event env d k s w).1

recorded-SameBut :
    (env : Env) (d : Device) (k : DeviceEventType) (s : DeviceEventScanner) (w : World)
    → SameBut w (recorded env d k s w).1
recorded-SameBut env d k s w =
    SameBut-trans (device_event-SameBut env d k s w)
      (record_event-SameBut env (device_event env d k s w).0 (device_event env d k s w).1)

record_changes-SameBut :
    (env : Env) (d : Device) (s : DeviceEventScanner) (cs : List DeviceChange) (w : World)
    → SameBut w (record_changes env d s cs w).1
unfolding record_changes
record_changes-SameBut env d s [] w = ground arith
record_changes-SameBut env d s (c ∷ cs) w =
    let r = recorded env d (event_type_for c) s w in
    ground
      (arith, recorded-SameBut env d (event_type_for c) s w, record_changes-SameBut env d s cs r.1)

pub record_known_device-SameBut :
    (env : Env) (a b : Device) (s : DeviceEventScanner) (w : World)
    → SameBut w (record_known_device env a b s w).1
unfolding record_known_device
record_known_device-SameBut env a b s w =
    let r = recorded env b DeviceEventType.device_seen s w in
    let detected =
      detect_known_device_changes env.settings.notifications.notify_when_not_seen_for (now env r.1)
        a b in
    ground (
      arith,
      recorded-SameBut env b DeviceEventType.device_seen s w,
      record_changes-SameBut env b s detected (read_clock r.1),
    )

pub record_new_device-SameBut :
    (env : Env) (d : Device) (s : DeviceEventScanner) (w : World)
    → SameBut w (record_new_device env d s w).1
unfolding record_new_device
record_new_device-SameBut env d s w =
    ground (arith, recorded-SameBut env d DeviceEventType.new_device s w)
