-- ===== src/Settings/Tables.antt =====
-- backend/src/settings.rs: the tables of a configuration file with the keys that they have, the
-- defaults that the source names, and what is read without a duration.
use oott.Prelude.{ℕ, Bool, true, Option, none, some, unwrap_or, ltb, if◌then◌else◌}
use oott.Prelude.Text.{Text, bytes}
use oott.Settings.{
  Networking, Log, DhcpScanner, Pushover, Push, WebServer, Settings, ConfigError, default_push,
}

infixl 5 ◌>>=◌
abbrev pub ◌>>=◌ : {A B : Type 0} → Option A → (A → Option B) → Option B
none >>= f = none
some a >>= f = f a

-- The tables of the file, with the keys that it has.
pub record ArpTable : Type 0 where
  pub enabled : Option Bool
  pub wait_between_scans : Option Text
  pub sender_timeout : Option Text
  pub scan_duration : Option Text

pub record ProbeTable : Type 0 where
  pub enabled : Option Bool
  pub probe_timeout : Option Text

pub record SnmpTable : Type 0 where
  pub enabled : Option Bool
  pub target : Option Text
  pub community : Option Text
  pub wait_between_scans : Option Text
  pub timeout : Option Text

pub record NotificationsTable : Type 0 where
  pub method : Option Text
  pub pushover : Option (Option Text × Option Text)
  pub push : Option (Option Text)
  pub notify_when_not_seen_for : Option Text

pub record WebServerTable : Type 0 where
  pub ip_address : Option Text
  pub port : Option ℕ
  pub api_key : Option Text

-- The tables with one key are this key.
pub record ConfigFile : Type 0 where
  pub database : Option (Option Text)
  pub networking : Option (Option Text)
  pub log : Option (Option Text)
  pub arp_scanner : Option ArpTable
  pub notifications : Option NotificationsTable
  pub web_server : Option WebServerTable
  pub retention : Option (Option Text)
  pub device_events : Option (Option Text)
  pub mdns_scanner : Option ProbeTable
  pub ssdp_scanner : Option ProbeTable
  pub dhcp_scanner : Option (Option Bool)
  pub snmp_scanner : Option SnmpTable

abbrev pub default_true : Bool
default_true = true

abbrev pub default_log_level : Text
default_log_level = bytes "warn"

abbrev pub default_ip_address : Text
default_ip_address = bytes "0.0.0.0"

abbrev pub default_port : ℕ
default_port = 3000

abbrev pub default_notify_when_not_seen_for : Text
default_notify_when_not_seen_for = bytes "1w"

abbrev pub default_arp_wait_between_scans : Text
default_arp_wait_between_scans = bytes "30m"

abbrev pub default_arp_sender_timeout : Text
default_arp_sender_timeout = bytes "1m"

abbrev pub default_arp_scan_duration : Text
default_arp_scan_duration = bytes "10m"

abbrev pub default_probe_timeout : Text
default_probe_timeout = bytes "2s"

abbrev pub default_snmp_wait_between_scans : Text
default_snmp_wait_between_scans = bytes "10m"

abbrev pub default_snmp_timeout : Text
default_snmp_timeout = bytes "5s"

-- What needs no duration: instances of `Default`, and what is read of the tables.
abbrev pub networking_default : Networking
networking_default = record { interface = none }

abbrev pub log_default : Log
log_default = record { level = default_log_level }

abbrev pub dhcp_default : DhcpScanner
dhcp_default = record { enabled = true }

abbrev pub read_networking : Option Text → Networking
read_networking interface = record { interface = interface }

abbrev pub read_log : Option Text → Log
read_log level = record { level = unwrap_or default_log_level level }

abbrev pub read_dhcp : Option Bool → DhcpScanner
read_dhcp enabled = record { enabled = unwrap_or default_true enabled }

abbrev pub read_pushover : Option (Option Text × Option Text) → Option (Option Pushover)
read_pushover none = some none
read_pushover (some (token, user_key)) = do
  t ← token
  u ← user_key
  some (some (record { token = t; user_key = u }))

abbrev pub read_push : Option Text → Push
read_push relay_url = record { relay_url = unwrap_or default_push.relay_url relay_url }

-- A port is a `u16`.
abbrev pub read_port : Option ℕ → Option ℕ
read_port none = some default_port
read_port (some port) = if ltb port 65536 then some port else none

abbrev pub read_web_server : WebServerTable → Option WebServer
read_web_server t = do
  port ← read_port t.port
  api_key ← t.api_key
  some (record {
    ip_address = unwrap_or default_ip_address t.ip_address;
    port = port;
    api_key = api_key;
  })

-- `serde(default)` on a table.
abbrev pub table_or : {S T : Type 0} → Option S → (T → Option S) → Option T → Option S
table_or missing read none = missing
table_or missing read (some t) = read t

abbrev pub after_validate : Settings → Option ConfigError → Option Settings
after_validate s none = some s
after_validate s (some e) = none
