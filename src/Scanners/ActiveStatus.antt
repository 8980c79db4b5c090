-- ===== src/Scanners/ActiveStatus.antt =====
-- backend/src/scanners/common/active_status.rs: the status of the ARP and SNMP scanners.
pub mod Consistency
use oott.Prelude.{
  ℕ, Bool, true, false, Option, none, some, List, [], ◌∷◌, map, any, length, if◌then◌else◌,
}
use oott.Prelude.Text.{Text, text_eq}
use oott.Model.Device.{Device}

-- `ActiveStatus`, which its snapshot copies field by field.
pub record ActiveStatus : Type 0 where
  pub is_running : Bool
  pub scan_started_at : Option ℕ
  pub next_scan_at : Option ℕ
  pub last_scan_devices_seen : Option ℕ
  pub last_scan_at : Option ℕ

-- `new`, through `Default`.
unfoldable pub new_status : ActiveStatus
new_status = record {
  is_running = false;
  scan_started_at = none;
  next_scan_at = none;
  last_scan_devices_seen = none;
  last_scan_at = none;
}

-- `set_running`, at a reading of the clock.
unfoldable pub set_running : ℕ → ActiveStatus → ActiveStatus
set_running at s = record s { is_running = true; scan_started_at = some at; next_scan_at = none }

-- `set_waiting`.
unfoldable pub set_waiting : ℕ → ActiveStatus → ActiveStatus
set_waiting next_scan_at s = record s {
  is_running = false;
  scan_started_at = none;
  next_scan_at = some next_scan_at;
}

-- Collecting into a `HashSet`: each text once.
unfoldable pub distinct : List Text → List Text
unfolding text_eq
distinct [] = []
distinct (x ∷ xs) = let rest = distinct xs in if any (text_eq x) rest then rest else x ∷ rest

-- `record_scan`.
unfoldable pub record_scan : ℕ → List Device → ActiveStatus → ActiveStatus
unfolding distinct
record_scan at devices s = record s {
  last_scan_devices_seen = some (length (distinct (map (λ d. d.mac_address) devices)));
  last_scan_at = some at;
}

-- `ActiveStatusCell`: nothing happens before `init`, and a second `init` changes nothing.
abbrev pub StatusCell : Type 0
StatusCell = Option ActiveStatus

unfoldable pub init : StatusCell → StatusCell
unfolding new_status
init none = some new_status
init (some s) = some s

pub data StatusCall : Type 0 where
  init_cell : StatusCall
  running : (at : ℕ) → StatusCall
  waiting : (next_scan_at : ℕ) → StatusCall
  scanned : (at : ℕ) → List Device → StatusCall

-- The methods of the cell.
unfoldable pub call_cell : StatusCall → StatusCell → StatusCell
unfolding init set_running set_waiting record_scan
call_cell init_cell cell = init cell
call_cell c none = none
call_cell (running at) (some s) = some (set_running at s)
call_cell (waiting next_scan_at) (some s) = some (set_waiting next_scan_at s)
call_cell (scanned at devices) (some s) = some (record_scan at devices s)
