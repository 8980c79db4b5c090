-- ===== src/Scanners/PassiveStatus.antt =====
-- backend/src/scanners/common/passive_status.rs: the status of the mDNS, SSDP and DHCP scanners.
pub mod Counting
use oott.Prelude.{
  ℕ, ◌-◌, Bool, true, false, Option, none, some, List, [], ◌∷◌, keep, length, leb, if◌then◌else◌,
}
use oott.Prelude.Text.{Text, text_eq}

-- The window of an hour, in nanoseconds.
abbrev pub recent_window : ℕ
recent_window = 3600000000000

-- `PassiveStatus`; the `HashMap` of the sightings is a list of pairs with distinct keys.
pub record PassiveStatus : Type 0 where
  pub is_listening : Bool
  pub listening_since : Option ℕ
  pub recent_sightings : List (Text × ℕ)
  pub last_discovery_at : Option ℕ

pub record PassiveSnapshot : Type 0 where
  pub is_listening : Bool
  pub listening_since : Option ℕ
  pub devices_last_hour : ℕ
  pub last_discovery_at : Option ℕ

unfoldable pub new_status : PassiveStatus
new_status = record {
  is_listening = false;
  listening_since = none;
  recent_sightings = [];
  last_discovery_at = none;
}

-- `set_listening`, at a reading of the clock.
unfoldable pub set_listening : ℕ → PassiveStatus → PassiveStatus
set_listening at s = record s { is_listening = true; listening_since = some at }

-- `HashMap::insert`.
unfoldable pub insert_sighting : Text → ℕ → List (Text × ℕ) → List (Text × ℕ)
unfolding text_eq
insert_sighting mac at [] = (mac, at) ∷ []
insert_sighting mac at ((m, seen) ∷ rest) =
    if text_eq m mac then (m, at) ∷ rest else (m, seen) ∷ insert_sighting mac at rest

-- `record_discovery`.
unfoldable pub record_discovery : ℕ → Text → PassiveStatus → PassiveStatus
unfolding insert_sighting
record_discovery at mac s = record s {
  recent_sightings = insert_sighting mac at s.recent_sightings;
  last_discovery_at = some at;
}

-- `snapshot`: the sightings older than the window are dropped first. The subtraction stops at the
-- epoch, before which there is no sighting.
unfoldable pub snapshot : ℕ → PassiveStatus → PassiveSnapshot × PassiveStatus
snapshot at s =
    let recent = keep (λ p. leb (at - recent_window) p.1) s.recent_sightings in
    (
      record {
        is_listening = s.is_listening;
        listening_since = s.listening_since;
        devices_last_hour = length recent;
        last_discovery_at = s.last_discovery_at;
      },
      record s { recent_sightings = recent },
    )

-- `PassiveStatusCell`: nothing happens before `init`, and a second `init` changes nothing.
abbrev pub PassiveStatusCell : Type 0
PassiveStatusCell = Option PassiveStatus

unfoldable pub init : PassiveStatusCell → PassiveStatusCell
unfolding new_status
init none = some new_status
init (some s) = some s

-- `PassiveStatusCell::get`.
unfoldable pub get : ℕ → PassiveStatusCell → Option PassiveSnapshot × PassiveStatusCell
unfolding snapshot
get at none = (none, none)
get at (some s) = let (taken, s') = snapshot at s in (some taken, some s')
