-- ===== src/Tests/Running.antt =====
-- The settings of a configuration file, and the delivery loop.
use oott.Prelude.{
  ℕ, Bool, true, false, ◌≡◌, refl, Option, none, some, List, [], ◌∷◌, leb→le, OnSome,
}
use oott.Prelude.Text.{Text, bytes}
use oott.Settings.{Settings, validate}
use oott.Settings.Tables.{ConfigFile}
use oott.Settings.File.{new_settings}
use oott.Settings.File.Defaults.{with_tables, HasSwitches, new_settings-defaults}
use oott.Notify.Relay.{Relay}
use oott.Notify.Delivering.{Delivery, DeliveryCall, starts, receives, stops, enqueues, run}
use oott.Notify.Delivering.Log.{Log, IsLogOf, replay, run-IsLogOf}
use oott.Tests.Fixture.{faulty_env, network}

abbrev try_from : Text → Option ℕ
try_from t = some 7

abbrev file : ConfigFile
file = record {
  database = some (some (bytes "oott.db"));
  networking = none;
  log = none;
  arp_scanner = none;
  notifications = some (record {
    method = some (bytes "push");
    pushover = none;
    push = none;
    notify_when_not_seen_for = none;
  });
  web_server = some (record { ip_address = none; port = none; api_key = some (bytes "secret") });
  retention = none;
  device_events = none;
  mdns_scanner = some (record { enabled = some false; probe_timeout = none });
  ssdp_scanner = none;
  dhcp_scanner = none;
  snmp_scanner = none;
}

abbrev enabled_of : Option Settings → Option (Bool × Bool × Bool)
enabled_of none = none
enabled_of (some s) = some (s.arp_scanner.enabled, s.mdns_scanner.enabled, s.snmp_scanner.enabled)

-- The program starts with this file.
starts_with_file : enabled_of (new_settings try_from file) ≡ some (true, false, false)
unfolding new_settings
starts_with_file = refl

new_settings-defaults_example :
    (new_settings try_from (with_tables file) ≡ new_settings try_from file)
    × OnSome (λ s. (validate s ≡ none) × HasSwitches file s) (new_settings try_from file)
new_settings-defaults_example = new_settings-defaults try_from file

abbrev relay : Relay
relay _ _ = none

abbrev idle : Delivery
idle = record { world = record network { delivery_tx = false }; is_set = false; delivered = [] }

abbrev empty_log : Log
empty_log = record { is_set = false; is_open = false; accepted = []; taken = 0 }

abbrev calls : List DeliveryCall
calls =
    starts
    ∷ enqueues (bytes "a") (bytes "b")
    ∷ enqueues (bytes "c") (bytes "d")
    ∷ receives
    ∷ stops
    ∷ enqueues (bytes "e") (bytes "f")
    ∷ []

run-IsLogOf_example : IsLogOf (run faulty_env relay calls idle) (replay calls empty_log)
run-IsLogOf_example = run-IsLogOf faulty_env relay calls idle empty_log (record {
  is_set = refl;
  is_open = refl;
  accepted = refl;
  taken = refl;
  bounded = leb→le 0 100 refl;
  closed = refl;
  unset = refl;
})

abbrev loaded : Delivery
loaded = record {
  world = record network { queue = record { title = bytes "a"; body = bytes "b" } ∷ [] };
  is_set = true;
  delivered = [];
}

abbrev busy : List DeliveryCall
busy = enqueues (bytes "c") (bytes "d") ∷ receives ∷ []
