-- ===== src/Tests/Listing.antt =====
-- The list of devices and a push, on the small network.
use oott.Prelude.{◌≡◌, some, none, [], ◌∷◌}
use oott.Prelude.Int.{pos}
use oott.Prelude.Text.{bytes}
use oott.Settings.{Push}
use oott.Db.{Outcome}
use oott.Db.Devices.Listing.{DeviceFilters, list_devices, count_devices}
use oott.Db.Devices.Pages.{IsDevicePage, IsCountOf, list_devices-IsDevicePage}
use oott.Notify.Relay.{Relay, send}
use oott.Notify.Relay.Pushing.{IsSent, send-outcome}
use oott.Tests.Fixture.{sound_env, network}

abbrev filters : DeviceFilters
filters = record {
  is_registered = none;
  last_seen_from = some 10;
  last_seen_to = none;
  owner = none;
  device_type = none;
  vendor = none;
}

list_devices-IsDevicePage_example :
    Outcome Unit
      (IsDevicePage sound_env filters
        (some (bytes "Name"))
        none
        (some (pos 0))
        (some (pos 1))
        network)
      (list_devices sound_env filters
        (some (bytes "Name"))
        none
        (some (pos 0))
        (some (pos 1))
        network).0
    × Outcome Unit (IsCountOf sound_env filters network) (count_devices sound_env filters network).0
list_devices-IsDevicePage_example =
    list_devices-IsDevicePage sound_env filters (some (bytes "Name")) none (some (pos 0))
      (some (pos 1)) network

-- A relay that knows nothing of the second token.
abbrev relay : Relay
relay url request = some (
    record { token = bytes "tok-a"; status = bytes "ok" }
    ∷ record { token = bytes "tok-b"; status = bytes "unregistered" }
    ∷ [])

abbrev config : Push
config = record { relay_url = bytes "https://relay" }

send-outcome_example :
    Outcome
      ((send sound_env relay config (bytes "T") (bytes "B") network).1.tables ≡ network.tables)
      (IsSent relay config
        (bytes "T")
        (bytes "B")
        network.tables
        (send sound_env relay config (bytes "T") (bytes "B") network).1.tables)
      (send sound_env relay config (bytes "T") (bytes "B") network).0
send-outcome_example = send-outcome sound_env relay config (bytes "T") (bytes "B") network
