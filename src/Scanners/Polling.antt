-- ===== src/Scanners/Polling.antt =====
-- What the two polling loops share: backend/src/scanners/arp/scanner.rs and snmp/scanner.rs.
pub mod Recruiting
pub mod Rounds
pub mod Showing
pub mod Scans
use oott.Prelude.{ℕ, ◌+◌, none, some, List, [], ◌∷◌, ◌++◌}
use oott.Prelude.Text.{Text}
use oott.Model.Device.{Device}
use oott.Model.DeviceEvent.{DeviceEventScanner, DeviceChange}
use oott.Db.{World, Env, now, read_clock}
use oott.Notify.{notify}
use oott.Scanners.Pipeline.{record_sighting}
use oott.Scanners.ActiveStatus.{StatusCell}
use oott.Scanners.ActiveStatus as Status

-- The database and the status of one scanner.
pub record Poller : Type 0 where
  pub world : World
  pub status : StatusCell

-- `ActiveStatusCell::set_running`, `record_scan` and `set_waiting`; the first two read the clock.
unfoldable pub set_running : Env → Poller → Poller
unfolding Status.set_running
set_running env p = elim p.status [
  | none ↦ p
  | some s ↦ record {
    world = read_clock p.world;
    status = some (Status.set_running (now env p.world) s);
  }
]

unfoldable pub record_scan : Env → List Device → Poller → Poller
unfolding Status.record_scan
record_scan env devices p = elim p.status [
  | none ↦ p
  | some s ↦ record {
    world = read_clock p.world;
    status = some (Status.record_scan (now env p.world) devices s);
  }
]

unfoldable pub set_waiting : ℕ → Poller → Poller
unfolding Status.set_waiting
set_waiting next_scan_at p = elim p.status [
  | none ↦ p
  | some s ↦ record p { status = some (Status.set_waiting next_scan_at s) }
]

-- The loop over the devices found, which gathers the changes of all sightings.
unfoldable pub sight_all :
    Env → DeviceEventScanner → List Device → World → List DeviceChange × World
unfolding record_sighting
sight_all env scanner [] w = ([], w)
sight_all env scanner (device ∷ devices) w =
    let (changes, w₁) = record_sighting env device scanner w in
    let (more, w₂) = sight_all env scanner devices w₁ in (changes ++ more, w₂)

-- The devices of a scan: one call of `notify` for all of them.
unfoldable pub process_devices :
    Env → (ℕ → Text) → DeviceEventScanner → List Device → Poller → Poller
unfolding record_scan sight_all notify
process_devices env duration_text scanner devices p =
    let p₁ = record_scan env devices p in
    let (changes, w) = sight_all env scanner devices p₁.world in
    record p₁ { world = notify env duration_text changes w }

-- How a round of the loop ends: it sleeps until the next, or the task returns an error, or panics.
pub data RoundEnd (E : Type 0) : Type 0 where
  sleeps panics : RoundEnd E
  fails : E → RoundEnd E

-- The end of a round: `from_std(wait).unwrap()`, and the status up to the next scan.
unfoldable pub await_next : {E : Type 0} → Env → (wait : ℕ) → Poller → RoundEnd E × Poller
unfolding set_waiting
await_next env wait p = elim (env.from_std wait) [
  | none ↦ (panics, record p { world = read_clock p.world })
  | some d ↦ (sleeps, set_waiting (now env p.world + d) (record p { world = read_clock p.world }))
]

-- How the task ends, and that it has not ended.
pub data TaskEnd (E : Type 0) : Type 0 where
  still_runs returned panicked : TaskEnd E
  failed : E → TaskEnd E

-- What a round of the loop meets: the shutdown during the probe, or an answer to it and then, maybe,
-- the shutdown during the sleep.
pub data Round (A : Type 0) : Type 0 where
  cancelled_probe : Round A
  answer answer_then_cancelled : A → Round A

-- The loop, over what its rounds meet. `poll` is the part of a round behind the probe.
abbrev after_round : {E : Type 0} → TaskEnd E × Poller → RoundEnd E × Poller → TaskEnd E × Poller
after_round next (sleeps, p) = next
after_round next (panics, p) = (panicked, p)
after_round next (fails e, p) = (failed e, p)

unfoldable pub poll_loop :
    {A E : Type 0}
    → Env
    → (A → Poller → RoundEnd E × Poller)
    → List (Round A)
    → Poller
    → TaskEnd E × Poller
unfolding set_running
poll_loop env poll [] p = (still_runs, p)
poll_loop env poll (cancelled_probe ∷ rounds) p = (returned, set_running env p)
poll_loop env poll (answer_then_cancelled a ∷ rounds) p =
    let ended = poll a (set_running env p) in after_round (returned, ended.1) ended
poll_loop env poll (answer a ∷ rounds) p =
    let ended = poll a (set_running env p) in
    let next = poll_loop env poll rounds ended.1 in after_round next ended
