-- ===== src/Web/ScannerStatus.antt =====
-- backend/src/web_server/scanner_status.rs, config.rs and the status handlers of the scanners. A
-- number of seconds is given by its milliseconds, which the source divides by 1000.0.
use oott.Prelude.{ℕ, ◌-◌, ◌/◌, Bool, Option, none, some, if◌then◌else◌, leb}
use mathlib.Core.Option
use oott.Prelude.Int.{ℤ, pos, negative, pos_part}
use oott.Prelude.Text.{Text}
use oott.Db.{Env, now, read_clock}
use oott.Scanners.ActiveStatus.{ActiveStatus}
use oott.Scanners.PassiveStatus.{PassiveSnapshot, get}
use oott.Scanners.Listening.{Listener}
use oott.Scanners.Polling.{Poller}
use oott.Web.Http.{internal_server_error, Answer, json, failed}

pub record ActiveScannerStatusResponse : Type 0 where
  pub is_running : Bool
  pub running_for : Option ℤ
  pub next_run_in : Option ℕ
  pub last_scan_devices_seen : Option ℕ
  pub last_scan_ago : Option ℕ

pub record PassiveScannerStatusResponse : Type 0 where
  pub is_listening : Bool
  pub listening_for : Option ℤ
  pub devices_seen : ℕ
  pub last_device_seen_ago : Option ℕ

-- `(later - earlier).num_milliseconds()`, which cuts off towards zero; no number of milliseconds of
-- a date leaves `i64`.
unfoldable pub num_milliseconds : ℕ → ℕ → ℤ
num_milliseconds earlier later =
    if leb earlier later
    then pos ((later - earlier) / 1000000)
    else negative ((earlier - later) / 1000000)

-- `seconds_between`.
unfoldable pub seconds_between : ℕ → ℕ → ℕ
unfolding num_milliseconds
seconds_between earlier later = pos_part (num_milliseconds earlier later)

-- `active_response`, at a reading of the clock.
unfoldable pub active_response : ℕ → Option ActiveStatus → Answer ActiveScannerStatusResponse
unfolding num_milliseconds seconds_between
active_response at none = failed internal_server_error
active_response at (some s) = json (record {
  is_running = s.is_running;
  running_for =
      if s.is_running then Option.map (λ t. num_milliseconds t at) s.scan_started_at else none;
  next_run_in =
      if s.is_running then none else Option.map (λ t. seconds_between at t) s.next_scan_at;
  last_scan_devices_seen = s.last_scan_devices_seen;
  last_scan_ago = Option.map (λ t. seconds_between t at) s.last_scan_at;
})

-- `passive_response`.
unfoldable pub passive_response : ℕ → Option PassiveSnapshot → Answer PassiveScannerStatusResponse
unfolding num_milliseconds seconds_between
passive_response at none = failed internal_server_error
passive_response at (some s) = json (record {
  is_listening = s.is_listening;
  listening_for =
      if s.is_listening then Option.map (λ t. num_milliseconds t at) s.listening_since else none;
  devices_seen = s.devices_last_hour;
  last_device_seen_ago = Option.map (λ t. seconds_between t at) s.last_discovery_at;
})

-- The handler `status` of arp_scanner.rs and snmp_scanner.rs.
unfoldable pub active_status : Env → Poller → Answer ActiveScannerStatusResponse × Poller
unfolding active_response
active_status env p = elim p.status [
  | none ↦ (active_response 0 none, p)
  | some s ↦ (active_response (now env p.world) (some s), record p { world = read_clock p.world })
]

-- The handler `status` of mdns_scanner.rs, ssdp_scanner.rs and dhcp_scanner.rs: the snapshot, which
-- prunes the sightings, has its own reading of the clock.
unfoldable pub passive_status : Env → Listener → Answer PassiveScannerStatusResponse × Listener
unfolding passive_response get
passive_status env l = elim l.status [
  | none ↦ (passive_response 0 none, l)
  | some s ↦
      let (taken, status) = get (now env l.world) (some s) in
      let w = read_clock l.world in
      (passive_response (now env w) taken, record l { world = read_clock w; status = status })
]

-- backend/src/model/config.rs, and config.rs, `read`.
pub record NotificationConfig : Type 0 where
  pub method : Text

pub record Config : Type 0 where
  pub notifications : NotificationConfig

unfoldable pub read_config : Env → Config
read_config env = record { notifications = record { method = env.settings.notifications.method } }
