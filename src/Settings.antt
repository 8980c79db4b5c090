-- ===== src/Settings.antt =====
-- backend/src/settings.rs: the settings, and their validation. Durations are nanoseconds. Tables
-- and File are how they are read, with the defaults of what the configuration leaves out.
pub mod Tables
pub mod File
use oott.Prelude.{ℕ, Bool, Option, none, some, ◌&&◌, not, if◌then◌else◌, is_some}
use oott.Prelude.Text.{Text, bytes, text_eq}

pub record Database : Type 0 where
  pub path : Text

pub record Networking : Type 0 where
  pub interface : Option Text

pub record Log : Type 0 where
  pub level : Text

pub record ArpScanner : Type 0 where
  pub enabled : Bool
  pub wait_between_scans : ℕ
  pub sender_timeout : ℕ
  pub scan_duration : ℕ

pub record MdnsScanner : Type 0 where
  pub enabled : Bool
  pub probe_timeout : ℕ

pub record SsdpScanner : Type 0 where
  pub enabled : Bool
  pub probe_timeout : ℕ

pub record DhcpScanner : Type 0 where
  pub enabled : Bool

pub record SnmpScanner : Type 0 where
  pub enabled : Bool
  pub target : Text
  pub community : Text
  pub wait_between_scans : ℕ
  pub timeout : ℕ

pub record Pushover : Type 0 where
  pub token : Text
  pub user_key : Text

pub record Push : Type 0 where
  pub relay_url : Text

pub record Notifications : Type 0 where
  pub method : Text
  pub pushover : Option Pushover
  pub push : Option Push
  pub notify_when_not_seen_for : ℕ

pub record WebServer : Type 0 where
  pub ip_address : Text
  pub port : ℕ
  pub api_key : Text

pub record Retention : Type 0 where
  pub window : ℕ

pub record DeviceEvents : Type 0 where
  pub deduplication_window : ℕ

pub record Settings : Type 0 where
  pub database : Database
  pub networking : Networking
  pub log : Log
  pub arp_scanner : ArpScanner
  pub notifications : Notifications
  pub web_server : WebServer
  pub retention : Retention
  pub device_events : DeviceEvents
  pub mdns_scanner : MdnsScanner
  pub ssdp_scanner : SsdpScanner
  pub dhcp_scanner : DhcpScanner
  pub snmp_scanner : SnmpScanner

pub data ConfigError : Type 0 where
  message : ConfigError

-- `default_relay_url`, through `Push::default`.
unfoldable pub default_push : Push
default_push = record { relay_url = bytes "https://relay-dzhbmmulaq-uc.a.run.app/v1/push" }

-- `Settings::validate`; `none` is `Ok(())`.
unfoldable pub validate : Settings → Option ConfigError
unfolding text_eq
validate s =
    if text_eq s.notifications.method (bytes "pushover") && not (is_some s.notifications.pushover)
    then some message
    else none
