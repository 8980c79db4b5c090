-- ===== src/Tests/Statuses.antt =====
-- The status of the ARP scanner after some rounds, and after its end.
use oott.Prelude.{◌≡◌, refl, none, some, [], ◌∷◌}
use oott.Prelude.Text.{bytes}
use oott.Scanners.Arp as Arp
use oott.Scanners.Polling as Polling
use oott.Scanners.Polling.Showing.{TaskShows}
use oott.Scanners.Polling.Scans.{arp_scan-TaskShows}
use oott.System.{System, delivery_receives, sweeps}
use oott.System.Api.{Event, round, request, arp_status, notifications_test, live}
use oott.System.Api.Stale.{started_at, AnswersRunning, stale_scan}
use oott.Prelude.{ℕ, List}
use oott.Tests.Rounds.{outside, relay, answer, poller, no_interface, system}

arp_scan-TaskShows_example :
    let t = Arp.scan outside (Polling.answer answer ∷ Polling.answer no_interface ∷ []) poller in
    TaskShows t.0 t.1.status
arp_scan-TaskShows_example =
    arp_scan-TaskShows outside (Polling.answer answer) (Polling.answer no_interface ∷ []) poller
      refl refl

-- The system after a round that found no interface.
abbrev stopped : System
stopped = record system {
  arp = (Arp.scan outside (Polling.answer no_interface ∷ []) poller).1.status;
}

abbrev later : List (Event ℕ)
later =
    request (some (bytes "Bearer secret")) notifications_test
    ∷ round delivery_receives
    ∷ request (some (bytes "Bearer secret")) arp_status
    ∷ round sweeps
    ∷ []

no_interface_ends :
    (Arp.scan outside (Polling.answer no_interface ∷ []) poller).0
    ≡ Polling.failed Arp.invalid_device
unfolding Arp.scan
no_interface_ends = refl

stale_scan_example :
    let s' = live outside (λ oid. none) relay later stopped in
    (since : ℕ) × (started_at stopped.arp ≡ some since)
    × AnswersRunning outside.env since (record { world = s'.world; status = s'.arp })
stale_scan_example =
    stale_scan outside (λ (oid : ℕ). none) relay (Polling.answer no_interface) [] poller
      Arp.invalid_device later stopped refl refl no_interface_ends refl refl
