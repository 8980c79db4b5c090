-- ===== src/Tests/Announcing.antt =====
-- Three sightings of two devices, one of them new.
use oott.Prelude.{◌+◌, ◌≡◌, List, [], ◌∷◌, any, arith, if◌then◌else◌}
use oott.Prelude.Text.{bytes, nocase_eq}
use oott.Model.Device.{Device}
use oott.Model.DeviceEvent.{DeviceEventScanner, dhcp, mdns, ssdp, event_type_text}
use oott.Notify.Headlines.{headlines}
use oott.Scanners.Pipeline.Announcing.{known}
use oott.Scanners.Pipeline.Announcing.Firsts.{is_first}
use oott.Scanners.Pipeline.Announcing.Once.{
  announcements, IsHistory, run_sightings, is_of, run_sightings-announces_once,
}
use oott.Tests.Fixture.{sound_env, sound_env-no_fault, network, printer, phone}

abbrev camera : Device
camera = record printer { mac_address = bytes "AA:BB:CC:00:00:07" }

abbrev sightings : List (Device × DeviceEventScanner)
sightings = (camera, dhcp) ∷ (phone, mdns) ∷ (camera, ssdp) ∷ []

network-IsHistory : IsHistory network
unfolding is_first event_type_text nocase_eq
network-IsHistory m unknown = ground arith

run_sightings-announces_once_example :
    announcements
      (bytes "aa:bb:cc:00:00:07")
      (headlines (run_sightings sound_env (λ t. bytes "1m") sightings network))
    ≡ announcements (bytes "aa:bb:cc:00:00:07") (headlines network)
      + (if known (bytes "aa:bb:cc:00:00:07") network
          then 0
          else if any (is_of (bytes "aa:bb:cc:00:00:07")) sightings
          then 1
          else 0)
run_sightings-announces_once_example =
    run_sightings-announces_once sound_env (λ t. bytes "1m") sound_env-no_fault
      (bytes "aa:bb:cc:00:00:07") sightings network network-IsHistory
