-- ===== src/Tests/Neighbours.antt =====
-- A poll of an agent that lists two addresses of the phone, the flags of notifications, and a filter
-- by times.
use oott.Prelude.{
  ℕ, true, false, ◌&&◌, ◌≡◌, refl, none, some, List, [], ◌∷◌, any, map, leb, ltb, arith,
}
use oott.Prelude.Text.{bytes, text_eq, nocase_eq}
use oott.Model.Device.{Device}
use oott.Model.Notification.{Notification, other}
use oott.Utils.Network.{normalize_mac}
use oott.Db.{World, Env, text_le}
use oott.Db.Chronology.{IsChronological}
use oott.Db.Devices.Reading.{row_of}
use oott.Db.Devices.Listing.{DeviceFilters, build_device_filters}
use oott.Db.Devices.Filtering.{without_times, build_device_filters-times}
use oott.Web.Notifications.Marking.{
  NoticeCall, reads, marks_as_new, marks_all_as_old, run_notices, flagged, run_notices-flagged,
}
use oott.Scanners.Ipv4.{ipv4, ip_text}
use oott.Scanners.Listening.{Outside}
use oott.Scanners.Snmp.{ObjectValue, string, parse_arp_table}
use oott.Scanners.Snmp.Choice.{is_pair}
use oott.Scanners.Snmp.Finding.{find, found}
use oott.Scanners.Snmp.Finding.Keeping.{addresses_of, find-keeps_address}
use oott.Tests.Fixture.{sound_env, sound_env-no_fault, network, phone}
use oott.Tests.Rounds.{outside}

abbrev sound_outside : Outside
sound_outside = record outside { env = sound_env }

-- Rows by their sub-identifiers behind the base: the interface and the address.
abbrev neighbours : List (List ℕ × ObjectValue)
neighbours =
    (2 ∷ 192 ∷ 168 ∷ 1 ∷ 5 ∷ [], string (0xaa ∷ 0xbb ∷ 0xcc ∷ 0 ∷ 0 ∷ 1 ∷ []))
    ∷ (2 ∷ 192 ∷ 168 ∷ 1 ∷ 7 ∷ [], string (0xaa ∷ 0xbb ∷ 0xcc ∷ 0 ∷ 0 ∷ 1 ∷ []))
    ∷ []

phone_row : row_of (bytes "aa:bb:cc:00:00:01") network ≡ some phone
unfolding normalize_mac nocase_eq
phone_row = refl

phone_address : phone.ipv4_address ≡ ip_text (ipv4 192 168 1 7)
unfolding ip_text
phone_address = refl

phone_listed :
    any (is_pair (bytes "aa:bb:cc:00:00:01") (ipv4 192 168 1 7)) (parse_arp_table some neighbours)
    ≡ true
unfolding parse_arp_table text_eq
phone_listed = refl

find-keeps_address_example :
    (devices : List Device) × ((find sound_outside some (some neighbours) network).0
      ≡ found devices)
    × (addresses_of (bytes "aa:bb:cc:00:00:01") devices ≡ ip_text (ipv4 192 168 1 7) ∷ [])
find-keeps_address_example =
    find-keeps_address sound_outside some neighbours network (bytes "aa:bb:cc:00:00:01") phone
      (ipv4 192 168 1 7) sound_env-no_fault phone_row phone_address (omega arith) phone_listed

abbrev notice : ℕ → Notification
notice id = record {
  id = some id;
  created_on = 90;
  notification_type = other;
  title = bytes "New";
  body = bytes "A device";
  is_new = true;
  mac_address = none;
}

abbrev noticed : World
noticed = record network {
  tables = record network.tables { notifications = notice 1 ∷ notice 2 ∷ notice 3 ∷ [] };
}

abbrev calls : List NoticeCall
calls = reads 1 ∷ marks_all_as_old ∷ marks_as_new 2 ∷ reads 4 ∷ []

run_notices-flagged_example :
    (run_notices sound_env calls noticed).tables.notifications
    ≡ map (flagged calls) noticed.tables.notifications
run_notices-flagged_example = run_notices-flagged sound_env calls noticed sound_env-no_fault

-- Stored texts have a digit more than those of bounds.
abbrev exact_env : Env
exact_env = record sound_env { to_rfc3339_nanos = λ t. t ∷ 0 ∷ [] }

exact_env-IsChronological : IsChronological exact_env
unfolding text_le
exact_env-IsChronological = record {
  stored_order = λ a b. ground arith;
  bound_order = λ a b. ground arith;
}

abbrev seen_until : DeviceFilters
seen_until = record {
  is_registered = some false;
  last_seen_from = some 10;
  last_seen_to = some 50;
  owner = none;
  device_type = none;
  vendor = none;
}

-- The phone was seen at the upper bound.
build_device_filters-times_example : build_device_filters exact_env seen_until phone ≡ (
    build_device_filters exact_env (without_times seen_until) phone
    && leb 10 phone.last_seen
    && ltb phone.last_seen 50)
build_device_filters-times_example =
    build_device_filters-times exact_env seen_until 10 50 phone exact_env-IsChronological refl refl
      (ground arith)
