-- ===== src/Settings/File/Defaults.antt =====
-- The defaults of a configuration file, which the source writes twice: for a table that is missing
-- and for the keys that are missing in a table.
use mathlib.Core.Option
use oott.Prelude.{OnSome, ℕ, Bool, true, false, ◌≡◌, refl, Option, none, some, unwrap_or, sym}
use oott.Prelude.Text.{Text}
use oott.Settings.{
  Settings, ConfigError, validate, ArpScanner, MdnsScanner, SsdpScanner, SnmpScanner,
}
use oott.Settings.Tables.{
  ConfigFile, ArpTable, ProbeTable, SnmpTable, after_validate, table_or, ◌>>=◌, log_default,
  networking_default, read_networking, read_log, dhcp_default, read_dhcp,
}
use oott.Settings.File.{
  snmp_default, read_snmp, new_settings, deserialize, arp_default, read_arp, mdns_default,
  read_mdns, ssdp_default, read_ssdp,
}

OnSome-bind :
    {A B : Type 0} (P : A → Type 0) (Q : B → Type 0) (m : Option A) (f : A → Option B)
    → OnSome P m
    → ((a : A) → P a → OnSome Q (f a))
    → OnSome Q (m >>= f)
OnSome-bind P Q none f h k = tt
OnSome-bind P Q (some a) f h k = k a h

OnSome-then :
    {A B : Type 0} (Q : B → Type 0) (m : Option A) (f : A → Option B)
    → ((a : A) → OnSome Q (f a))
    → OnSome Q (m >>= f)
OnSome-then Q none f k = tt
OnSome-then Q (some a) f k = k a

-- The switch of a scanner in its table.
abbrev pub switch : {T : Type 0} → Bool → (T → Option Bool) → Option T → Bool
switch missing key none = missing
switch missing key (some t) = unwrap_or true (key t)

abbrev empty_arp : ArpTable
empty_arp = record {
  enabled = none;
  wait_between_scans = none;
  sender_timeout = none;
  scan_duration = none;
}

abbrev empty_probe : ProbeTable
empty_probe = record { enabled = none; probe_timeout = none }

-- The file with an empty table in place of each that may be missing and has no required key.
abbrev pub with_tables : ConfigFile → ConfigFile
with_tables f = record f {
  networking = some (unwrap_or none f.networking);
  log = some (unwrap_or none f.log);
  arp_scanner = some (unwrap_or empty_arp f.arp_scanner);
  mdns_scanner = some (unwrap_or empty_probe f.mdns_scanner);
  ssdp_scanner = some (unwrap_or empty_probe f.ssdp_scanner);
  dhcp_scanner = some (unwrap_or none f.dhcp_scanner);
}

table_or_empty :
    {S T : Type 0} (missing : Option S) (read : T → Option S) (empty : T) (t : Option T)
    → missing ≡ read empty
    → table_or missing read (some (unwrap_or empty t)) ≡ table_or missing read t
table_or_empty missing read empty none e = sym e
table_or_empty missing read empty (some t) e = refl

or_empty :
    {S T : Type 0} (missing : S) (read : T → S) (empty : T) (t : Option T)
    → missing ≡ read empty
    → unwrap_or missing (Option.map read (some (unwrap_or empty t)))
      ≡ unwrap_or missing (Option.map read t)
or_empty missing read empty none e = sym e
or_empty missing read empty (some t) e = refl

-- Which scanners run: all but SNMP unless they are switched off, and SNMP where it has a table.
abbrev pub HasSwitches : ConfigFile → Settings → Type 0
HasSwitches f s =
    (s.arp_scanner.enabled ≡ switch true (λ t. t.enabled) f.arp_scanner)
    × (s.mdns_scanner.enabled ≡ switch true (λ t. t.enabled) f.mdns_scanner)
    × (s.ssdp_scanner.enabled ≡ switch true (λ t. t.enabled) f.ssdp_scanner)
    × (s.dhcp_scanner.enabled ≡ switch true (λ e. e) f.dhcp_scanner)
    × (s.snmp_scanner.enabled ≡ switch false (λ t. t.enabled) f.snmp_scanner)

dhcp-switch :
    (t : Option (Option Bool))
    → (unwrap_or dhcp_default (Option.map read_dhcp t)).enabled ≡ switch true (λ e. e) t
dhcp-switch none = refl
dhcp-switch (some e) = refl

module _ (try_from : Text → Option ℕ) where
  arp-switch :
      (t : Option ArpTable)
      → OnSome
          (λ s. s.enabled ≡ switch true (λ t. t.enabled) t)
          (table_or (arp_default try_from) (read_arp try_from) t)
  arp-switch none = search OnSome-then
  arp-switch (some t) = search OnSome-then

  mdns-switch :
      (t : Option ProbeTable)
      → OnSome
          (λ s. s.enabled ≡ switch true (λ t. t.enabled) t)
          (table_or (mdns_default try_from) (read_mdns try_from) t)
  mdns-switch none = search OnSome-then
  mdns-switch (some t) = search OnSome-then

  ssdp-switch :
      (t : Option ProbeTable)
      → OnSome
          (λ s. s.enabled ≡ switch true (λ t. t.enabled) t)
          (table_or (ssdp_default try_from) (read_ssdp try_from) t)
  ssdp-switch none = search OnSome-then
  ssdp-switch (some t) = search OnSome-then

  snmp-switch :
      (t : Option SnmpTable)
      → OnSome
          (λ s. s.enabled ≡ switch false (λ t. t.enabled) t)
          (table_or (snmp_default try_from) (read_snmp try_from) t)
  snmp-switch none = search OnSome-then
  snmp-switch (some t) = search OnSome-then

  arp-then :
      {B : Type 0} (Q : B → Type 0) (t : Option ArpTable) (f : ArpScanner → Option B)
      → ((a : ArpScanner) → a.enabled ≡ switch true (λ t. t.enabled) t → OnSome Q (f a))
      → OnSome Q (table_or (arp_default try_from) (read_arp try_from) t >>= f)
  arp-then Q t f k =
      OnSome-bind (λ s. s.enabled ≡ switch true (λ t. t.enabled) t) Q
        (table_or (arp_default try_from) (read_arp try_from) t) f (arp-switch t) k

  mdns-then :
      {B : Type 0} (Q : B → Type 0) (t : Option ProbeTable) (f : MdnsScanner → Option B)
      → ((a : MdnsScanner) → a.enabled ≡ switch true (λ t. t.enabled) t → OnSome Q (f a))
      → OnSome Q (table_or (mdns_default try_from) (read_mdns try_from) t >>= f)
  mdns-then Q t f k =
      OnSome-bind (λ s. s.enabled ≡ switch true (λ t. t.enabled) t) Q
        (table_or (mdns_default try_from) (read_mdns try_from) t) f (mdns-switch t) k

  ssdp-then :
      {B : Type 0} (Q : B → Type 0) (t : Option ProbeTable) (f : SsdpScanner → Option B)
      → ((a : SsdpScanner) → a.enabled ≡ switch true (λ t. t.enabled) t → OnSome Q (f a))
      → OnSome Q (table_or (ssdp_default try_from) (read_ssdp try_from) t >>= f)
  ssdp-then Q t f k =
      OnSome-bind (λ s. s.enabled ≡ switch true (λ t. t.enabled) t) Q
        (table_or (ssdp_default try_from) (read_ssdp try_from) t) f (ssdp-switch t) k

  snmp-then :
      {B : Type 0} (Q : B → Type 0) (t : Option SnmpTable) (f : SnmpScanner → Option B)
      → ((a : SnmpScanner) → a.enabled ≡ switch false (λ t. t.enabled) t → OnSome Q (f a))
      → OnSome Q (table_or (snmp_default try_from) (read_snmp try_from) t >>= f)
  snmp-then Q t f k =
      OnSome-bind (λ s. s.enabled ≡ switch false (λ t. t.enabled) t) Q
        (table_or (snmp_default try_from) (read_snmp try_from) t) f (snmp-switch t) k

  deserialize-HasSwitches : (f : ConfigFile) → OnSome (HasSwitches f) (deserialize try_from f)
  deserialize-HasSwitches f =
      search (arp-then, mdns-then, ssdp-then, snmp-then, OnSome-then, dhcp-switch) depth 20 fits
        5000

  new_settings-with_tables :
      (f : ConfigFile) → new_settings try_from (with_tables f) ≡ new_settings try_from f
  unfolding new_settings
  new_settings-with_tables f =
      rw
        (
          table_or_empty (arp_default try_from) (read_arp try_from) empty_arp f.arp_scanner refl,
          table_or_empty (mdns_default try_from) (read_mdns try_from) empty_probe f.mdns_scanner
              refl,
          table_or_empty (ssdp_default try_from) (read_ssdp try_from) empty_probe f.ssdp_scanner
              refl,
          or_empty log_default read_log none f.log refl,
          or_empty networking_default read_networking none f.networking refl,
          or_empty dhcp_default read_dhcp none f.dhcp_scanner refl,
        )
        refl

  validated :
      (f : ConfigFile) (s : Settings) (v : Option ConfigError)
      → validate s ≡ v
      → HasSwitches f s
      → OnSome (λ s. (validate s ≡ none) × HasSwitches f s) (after_validate s v)
  validated f s none e h = (e, h)
  validated f s (some x) e h = tt

  -- For every configuration file: an empty table means the same as none, but for SNMP's and those
  -- with a required key; and settings with which the program starts are valid, with every scanner
  -- on unless its table switches it off, but SNMP's off where it has no table.
  pub new_settings-defaults :
      (f : ConfigFile)
      → (new_settings try_from (with_tables f) ≡ new_settings try_from f)
        × OnSome (λ s. (validate s ≡ none) × HasSwitches f s) (new_settings try_from f)
  unfolding new_settings
  new_settings-defaults f = (
    new_settings-with_tables f,
    OnSome-bind (HasSwitches f) (λ s. (validate s ≡ none) × HasSwitches f s)
        (deserialize try_from f) (λ s. after_validate s (validate s)) (deserialize-HasSwitches f)
        (λ s h. validated f s (validate s) refl h),
  )
