-- ===== src/Tests/Sightings.antt =====
-- Sightings and their events, on the small network.
use oott.Prelude.{
  if◌then◌else◌, ◌++◌, ◌∷◌, ◌⊎◌, arith, ℕ, ◌-◌, ◌<◌, true, false, ◌≡◌, ◌↔◌, refl, some, [],
  update_where,
}
use oott.Prelude.Text.{bytes, nocase_eq}
use oott.Model.Device.{Device}
use oott.Model.DeviceEvent.{DeviceEvent, back_online, mdns, ssdp}
use oott.Utils.Network.{normalize_mac}
use oott.Db.{World}
use oott.Db.Devices.{has_mac, read}
use oott.Db.DeviceEvents.{is_duplicate, recent_duplicate_exists, insert}
use oott.Events.{record_event}
use oott.Events.Detection.{detect_known_device_changes}
use oott.Events.Changes.{IsIn, IsDetected, detect_known_device_changes_iff}
use oott.Events.Deduplication.{window_start, stored_row}
use oott.Events.Duplicates.{HasDuplicate, record_event_iff, record_event_outcome}
use oott.Scanners.Pipeline.{record_sighting}
use oott.Scanners.Pipeline.Registration.{registrations, IsGrown, record_sighting-registrations}
use oott.Scanners.Pipeline.Repeating.{record_sighting_twice}
use oott.Db.Devices.Reading.{row_of}
use oott.Scanners.Pipeline.Merging.{sighted_row_of, IsMerged, record_sighting-IsMerged}
use oott.Tests.Fixture.{
  sound_env, faulty_env, sound_env-no_fault, sound_env-IsChronological, faulty_env-IsChronological,
  network, printer, phone_seen,
}

-- The printer, back with a vendor and without an address.
abbrev sighting : Device
sighting = record printer {
  mac_address = bytes "AA:BB:CC:00:00:02";
  ipv4_address = [];
  vendor = bytes "Brand";
  name = some (bytes "other");
}

printer_found : (read sound_env sighting.mac_address network).0 ≡ some printer
unfolding read nocase_eq normalize_mac
printer_found = refl

record_sighting-IsMerged_example :
    ((record_sighting sound_env sighting mdns network).1.tables.devices
      ≡ update_where
          (has_mac (normalize_mac sighting.mac_address))
          (sighted_row_of 100 printer sighting)
          network.tables.devices)
    × IsMerged 100 printer sighting (sighted_row_of 100 printer sighting printer)
record_sighting-IsMerged_example =
    record_sighting-IsMerged sound_env sighting mdns network printer sound_env-no_fault
      printer_found

record_sighting-registrations_example :
    IsGrown sighting
      (registrations network)
      (registrations (record_sighting faulty_env sighting mdns network).1)
record_sighting-registrations_example =
    record_sighting-registrations faulty_env sighting mdns network

detect_example :
    IsIn (back_online sighting 80) (detect_known_device_changes 30 100 printer sighting)
    ↔ IsDetected 30 100 printer sighting (back_online sighting 80)
detect_example = detect_known_device_changes_iff 30 100 printer sighting (back_online sighting 80)

abbrev seen_again : DeviceEvent
seen_again = record phone_seen { ipv4_address = bytes "192.168.1.9"; created_on = 100 }

-- The phone with another IPv4 address, behind its event of the time 98.
abbrev network_after : World
network_after = record network { tables = (record_event sound_env phone_seen network).1.tables }

seen_again-suppressed : (record_event sound_env seen_again network_after).0 ≡ false
unfolding record_event recent_duplicate_exists insert is_duplicate normalize_mac
seen_again-suppressed = refl

record_event_iff_example :
    (((record_event sound_env seen_again network_after).0 ≡ false)
      ↔ HasDuplicate seen_again
          (window_start sound_env network_after)
          network_after.tables.device_events)
    × ((record_event sound_env seen_again network_after).1.tables ≡ (
        if (record_event sound_env seen_again network_after).0
        then record network_after.tables {
          device_events =
              network_after.tables.device_events
              ++ stored_row seen_again network_after.tables.device_events ∷ [];
        }
        else network_after.tables))
record_event_iff_example =
    record_event_iff sound_env seen_again network_after sound_env-no_fault sound_env-IsChronological

record_event_outcome_example :
    (((record_event faulty_env phone_seen network).0 ≡ false)
      × HasDuplicate phone_seen (window_start faulty_env network) network.tables.device_events
      × ((record_event faulty_env phone_seen network).1.tables ≡ network.tables))
    ⊎ (((record_event faulty_env phone_seen network).0 ≡ true)
        × (((record_event faulty_env phone_seen network).1.tables ≡ network.tables)
            ⊎ ((record_event faulty_env phone_seen network).1.tables ≡ record network.tables {
              device_events =
                  network.tables.device_events
                  ++ stored_row phone_seen network.tables.device_events ∷ [];
            })))
record_event_outcome_example =
    record_event_outcome faulty_env phone_seen network faulty_env-IsChronological

printer-there : row_of sighting.mac_address network ≡ some printer
unfolding nocase_eq normalize_mac
printer-there = refl

clock-is_close : (n : ℕ) → sound_env.clock n - sound_env.clock 0 < 30
clock-is_close n = omega arith

record_sighting_twice_example :
    (record_sighting sound_env sighting ssdp (record_sighting sound_env sighting mdns network).1).0
    ≡ []
record_sighting_twice_example =
    record_sighting_twice sound_env sighting mdns ssdp network printer sound_env-no_fault
      printer-there clock-is_close
