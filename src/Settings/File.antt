-- ===== src/Settings/File.antt =====
-- backend/src/settings.rs: what the attributes `serde(default)`, the `Default` instances and
-- `Settings::new` make of a configuration file. `none` is a file with which the program does not
-- start. The `config` and `serde` libraries read the file into the tables of its keys.
pub mod Defaults
use oott.Prelude.{ℕ, true, false, Option, none, some, [], unwrap_or}
use mathlib.Core.Option
use oott.Prelude.Text.{Text, bytes}
use oott.Settings.{
  ArpScanner, MdnsScanner, SsdpScanner, SnmpScanner, Notifications, Retention, DeviceEvents,
  Settings, validate,
}
use oott.Settings.Tables.{
  ◌>>=◌, ArpTable, ProbeTable, SnmpTable, NotificationsTable, ConfigFile, default_true,
  default_notify_when_not_seen_for, default_arp_wait_between_scans, default_arp_sender_timeout,
  default_arp_scan_duration, default_probe_timeout, default_snmp_wait_between_scans,
  default_snmp_timeout, networking_default, read_networking, log_default, dhcp_default, read_log,
  read_dhcp, read_pushover, read_push, read_web_server, table_or, after_validate,
}

-- `try_from` is `DurationString::try_from`, which the reading of a duration uses, too. A default
-- that it refuses is a panic.
module _ (try_from : Text → Option ℕ) where
  -- The other instances of `Default`.
  abbrev pub arp_default : Option ArpScanner
  arp_default = do
    wait ← try_from default_arp_wait_between_scans
    sender ← try_from default_arp_sender_timeout
    duration ← try_from default_arp_scan_duration
    some (record {
      enabled = true;
      wait_between_scans = wait;
      sender_timeout = sender;
      scan_duration = duration;
    })

  abbrev pub mdns_default : Option MdnsScanner
  mdns_default = do
    probe ← try_from default_probe_timeout
    some (record { enabled = true; probe_timeout = probe })

  abbrev pub ssdp_default : Option SsdpScanner
  ssdp_default = do
    probe ← try_from default_probe_timeout
    some (record { enabled = true; probe_timeout = probe })

  abbrev pub snmp_default : Option SnmpScanner
  snmp_default = do
    wait ← try_from default_snmp_wait_between_scans
    timeout ← try_from default_snmp_timeout
    some (record {
      enabled = false;
      target = [];
      community = [];
      wait_between_scans = wait;
      timeout = timeout;
    })

  abbrev pub retention_default : Option Retention
  retention_default = do window ← try_from (bytes "365d"); some (record { window = window })

  abbrev pub device_events_default : Option DeviceEvents
  device_events_default = do
    window ← try_from (bytes "1m")
    some (record { deduplication_window = window })

  -- A duration with a default for the key that is missing.
  abbrev duration_or : Text → Option Text → Option ℕ
  duration_or missing none = try_from missing
  duration_or missing (some t) = try_from t

  -- What is read of each table that is there: a missing key without a default is an error.
  abbrev pub read_arp : ArpTable → Option ArpScanner
  read_arp t = do
    wait ← duration_or default_arp_wait_between_scans t.wait_between_scans
    sender ← duration_or default_arp_sender_timeout t.sender_timeout
    duration ← duration_or default_arp_scan_duration t.scan_duration
    some (record {
      enabled = unwrap_or default_true t.enabled;
      wait_between_scans = wait;
      sender_timeout = sender;
      scan_duration = duration;
    })

  abbrev pub read_mdns : ProbeTable → Option MdnsScanner
  read_mdns t = do
    probe ← duration_or default_probe_timeout t.probe_timeout
    some (record { enabled = unwrap_or default_true t.enabled; probe_timeout = probe })

  abbrev pub read_ssdp : ProbeTable → Option SsdpScanner
  read_ssdp t = do
    probe ← duration_or default_probe_timeout t.probe_timeout
    some (record { enabled = unwrap_or default_true t.enabled; probe_timeout = probe })

  abbrev pub read_snmp : SnmpTable → Option SnmpScanner
  read_snmp t = do
    target ← t.target
    community ← t.community
    wait ← duration_or default_snmp_wait_between_scans t.wait_between_scans
    timeout ← duration_or default_snmp_timeout t.timeout
    some (record {
      enabled = unwrap_or default_true t.enabled;
      target = target;
      community = community;
      wait_between_scans = wait;
      timeout = timeout;
    })

  abbrev pub read_notifications : NotificationsTable → Option Notifications
  read_notifications t = do
    method ← t.method
    pushover ← read_pushover t.pushover
    absence ← duration_or default_notify_when_not_seen_for t.notify_when_not_seen_for
    some (record {
      method = method;
      pushover = pushover;
      push = Option.map read_push t.push;
      notify_when_not_seen_for = absence;
    })

  abbrev pub read_retention : Option Text → Option Retention
  read_retention key = do text ← key; window ← try_from text; some (record { window = window })

  abbrev pub read_device_events : Option Text → Option DeviceEvents
  read_device_events key = do
    text ← key
    window ← try_from text
    some (record { deduplication_window = window })

  abbrev pub deserialize : ConfigFile → Option Settings
  deserialize f = do
    database ← f.database
    path ← database
    arp ← table_or arp_default read_arp f.arp_scanner
    notifications_table ← f.notifications
    notifications ← read_notifications notifications_table
    web_table ← f.web_server
    web ← read_web_server web_table
    retention ← table_or retention_default read_retention f.retention
    events ← table_or device_events_default read_device_events f.device_events
    mdns ← table_or mdns_default read_mdns f.mdns_scanner
    ssdp ← table_or ssdp_default read_ssdp f.ssdp_scanner
    snmp ← table_or snmp_default read_snmp f.snmp_scanner
    some (record {
      database = record { path = path };
      networking = unwrap_or networking_default (Option.map read_networking f.networking);
      log = unwrap_or log_default (Option.map read_log f.log);
      arp_scanner = arp;
      notifications = notifications;
      web_server = web;
      retention = retention;
      device_events = events;
      mdns_scanner = mdns;
      ssdp_scanner = ssdp;
      dhcp_scanner = unwrap_or dhcp_default (Option.map read_dhcp f.dhcp_scanner);
      snmp_scanner = snmp;
    })

  -- `Settings::new`, over the file that is read.
  unfoldable pub new_settings : ConfigFile → Option Settings
  unfolding validate
  new_settings f = do s ← deserialize f; after_validate s (validate s)
