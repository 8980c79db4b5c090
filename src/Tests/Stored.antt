-- ===== src/Tests/Stored.antt =====
-- Rows of the tables, and some rounds of the retention loop.
use oott.Prelude.{
  ℕ, ◌+◌, ◌*◌, ◌-◌, ◌≡◌, ◌↔◌, refl, true, Option, none, some, List, [], ◌∷◌, any, arith,
}
use oott.Prelude.Int.{pos}
use oott.Prelude.Text.{Text, bytes}
use oott.Model.PushToken.{android}
use oott.Model.Notification.{Notification, other}
use oott.Db.{Env}
use oott.Db.Chronology.{IsChronological}
use oott.Db.Rows.{
  EventRow, integer, text, event_row, device_row, notification_row, stored_token, event_of_row,
  device_of_row, notification_of_row, token_of_row,
}
use oott.Db.Rows.Reading.{rows_back}
use oott.Db.Rows.Typing.{IsRowOf, event_of_row_iff}
use oott.Retention.{Wake, elapsed, cancelled, run}
use oott.Retention.Sweeping.{IsSwept, recent_events, recent_notifications}
use oott.Retention.Rounds.{rounds, is_cancelled, run-IsSwept, retention_exact}
use oott.Tests.Fixture.{sound_env, sound_env-IsChronological, network, printer, phone_seen}

-- The texts of times in the small network.
abbrev parse_utc : Text → Option ℕ
parse_utc (t ∷ []) = some t
parse_utc _ = none

abbrev notice : Notification
notice = record {
  id = none;
  created_on = 90;
  notification_type = other;
  title = bytes "New";
  body = bytes "A device";
  is_new = true;
  mac_address = none;
}

rows_back_example :
    (event_of_row parse_utc (event_row sound_env 7 phone_seen)
      ≡ some (record phone_seen { id = some 7 }))
    × (device_of_row parse_utc (device_row sound_env printer) ≡ some printer)
    × (notification_of_row parse_utc (notification_row sound_env 7 notice)
        ≡ some (record notice { id = some 7 }))
    × (token_of_row parse_utc (stored_token sound_env 7 (bytes "tok-c") android 95)
        ≡ some (record {
          id = 7;
          token = bytes "tok-c";
          platform = android;
          created_on = 95;
          last_seen = 95;
        }))
rows_back_example =
    rows_back sound_env parse_utc 7 95 phone_seen printer notice (bytes "tok-c") android (λ t. refl)

abbrev stored : EventRow
stored = record {
  id = integer (pos 7);
  mac_address = text (bytes "aa:bb:cc:00:00:01");
  created_on = text (98 ∷ []);
  event_type = text (bytes "DeviceSeen");
  ipv4_address = text (bytes "192.168.1.7");
  vendor = text (bytes "Acme");
  scanner = text (bytes "ARP");
}

event_of_row_iff_example :
    (event_of_row parse_utc stored ≡ some phone_seen) ↔ IsRowOf parse_utc stored phone_seen
event_of_row_iff_example = event_of_row_iff parse_utc stored phone_seen

-- A clock that goes on, 10 at each reading.
abbrev ticking_env : Env
ticking_env = record sound_env { clock = λ n. n * 10 + 60 }

ticking_env-IsChronological : IsChronological ticking_env
ticking_env-IsChronological = record {
  stored_order = sound_env-IsChronological.stored_order;
  bound_order = sound_env-IsChronological.bound_order;
}

abbrev wakes : List Wake
wakes = elapsed ∷ elapsed ∷ elapsed ∷ cancelled ∷ []

run-IsSwept_example :
    let cutoff = ticking_env.clock (network.clock_reads + rounds wakes) - 40 in
    IsSwept cutoff network.tables (run ticking_env wakes network).1.tables
    × ((run ticking_env wakes network).0 ≡ any is_cancelled wakes)
run-IsSwept_example =
    run-IsSwept ticking_env 40 wakes network ticking_env-IsChronological refl (λ n. omega arith)

retention_exact_example :
    let cutoff = ticking_env.clock (network.clock_reads + rounds wakes) - 40 in
    let t = (run ticking_env wakes network).1.tables in
    (t.device_events ≡ recent_events cutoff network.tables)
    × (t.notifications ≡ recent_notifications cutoff network.tables)
retention_exact_example =
    retention_exact ticking_env 40 wakes network ticking_env-IsChronological refl (λ n. omega arith)
      (λ n. refl)
