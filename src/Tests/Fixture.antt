-- ===== src/Tests/Fixture.antt =====
-- A small network: two devices, a stored event, settings, and an outside that never fails.
use oott.Prelude.{ℕ, suc, zero, Bool, true, false, ◌≡◌, refl, none, some, [], ◌∷◌, arith}
use oott.Prelude.Text.{bytes, nocase_eq}
use oott.Model.Device.{Device}
use oott.Model.DeviceEvent.{DeviceEvent, device_seen, arp}
use oott.Model.PushToken.{android, ios}
use oott.Settings.{Settings}
use oott.Db.{Env, Tables, World, text_le}
use oott.Db.Devices.Keys.{HasUniqueMacs}
use oott.Db.Chronology.{IsChronological}

abbrev pub settings : Settings
settings = record {
  database = record { path = bytes "oott.db" };
  networking = record { interface = none };
  log = record { level = bytes "warn" };
  arp_scanner = record {
    enabled = true;
    wait_between_scans = 30;
    sender_timeout = 1;
    scan_duration = 10;
  };
  notifications = record {
    method = bytes "push";
    pushover = none;
    push = none;
    notify_when_not_seen_for = 30;
  };
  web_server = record { ip_address = bytes "0.0.0.0"; port = 3000; api_key = bytes "secret" };
  retention = record { window = 40 };
  device_events = record { deduplication_window = 10 };
  mdns_scanner = record { enabled = true; probe_timeout = 2 };
  ssdp_scanner = record { enabled = true; probe_timeout = 2 };
  dhcp_scanner = record { enabled = true };
  snmp_scanner = record {
    enabled = true;
    target = bytes "192.168.1.1:161";
    community = bytes "public";
    wait_between_scans = 10;
    timeout = 5;
  };
}

-- The clock stands at 100; times are texts of one symbol, which sort as they do.
abbrev pub sound_env : Env
sound_env = record {
  settings = settings;
  clock = λ n. 100;
  db_fails = λ n. false;
  from_std = λ d. some d;
  to_rfc3339_nanos = λ t. t ∷ [];
  to_rfc3339 = λ t. t ∷ [];
}

-- The same, where the third call of the database fails.
abbrev third : ℕ → Bool
third (suc (suc zero)) = true
third _ = false

abbrev pub faulty_env : Env
faulty_env = record sound_env { db_fails = third }

pub sound_env-no_fault : (n : ℕ) → sound_env.db_fails n ≡ false
sound_env-no_fault n = refl

pub sound_env-IsChronological : IsChronological sound_env
unfolding text_le
sound_env-IsChronological = record {
  stored_order = λ a b. ground arith;
  bound_order = λ a b. ground arith;
}

pub faulty_env-IsChronological : IsChronological faulty_env
unfolding text_le
faulty_env-IsChronological = record {
  stored_order = λ a b. ground arith;
  bound_order = λ a b. ground arith;
}

abbrev pub phone : Device
phone = record {
  mac_address = bytes "aa:bb:cc:00:00:01";
  ipv4_address = bytes "192.168.1.7";
  vendor = bytes "Acme";
  last_seen = 50;
  is_registered = false;
  owner = [];
  device_type = bytes "Phone";
  name = none;
}

abbrev pub printer : Device
printer = record {
  mac_address = bytes "aa:bb:cc:00:00:02";
  ipv4_address = bytes "192.168.1.8";
  vendor = [];
  last_seen = 20;
  is_registered = true;
  owner = bytes "Ann";
  device_type = [];
  name = some (bytes "printer");
}

abbrev pub phone_seen : DeviceEvent
phone_seen = record {
  id = none;
  mac_address = bytes "AA:BB:CC:00:00:01";
  created_on = 98;
  event_type = device_seen;
  ipv4_address = bytes "192.168.1.7";
  vendor = bytes "Acme";
  scanner = arp;
}

abbrev pub old_event : DeviceEvent
old_event = record phone_seen {
  id = some 1;
  mac_address = bytes "aa:bb:cc:00:00:01";
  created_on = 50;
}

abbrev pub tables : Tables
tables = record {
  devices = phone ∷ printer ∷ [];
  device_events = old_event ∷ [];
  notifications = [];
  push_tokens =
      record { id = 1; token = bytes "tok-a"; platform = android; created_on = 5; last_seen = 6 }
      ∷ record { id = 2; token = bytes "tok-b"; platform = ios; created_on = 7; last_seen = 8 }
      ∷ [];
}

abbrev pub network : World
network = record { tables = tables; clock_reads = 0; db_calls = 0; delivery_tx = true; queue = [] }

pub network-HasUniqueMacs : HasUniqueMacs network.tables.devices
unfolding nocase_eq
network-HasUniqueMacs = (refl, (refl, tt))
