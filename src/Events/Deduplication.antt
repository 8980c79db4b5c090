-- ===== src/Events/Deduplication.antt =====
-- `record_event`: which events are recorded, and which are suppressed as duplicates.
use oott.Prelude.{
  ℕ, suc, ◌-◌, Bool, false, not, ◌≡◌, some, List, [], ◌∷◌, ◌++◌, any, arith, count-pos, unwrap_or,
  if◌then◌else◌,
}
use oott.Model.DeviceEvent.{DeviceEvent}
use oott.Utils.Network.{normalize_mac}
use oott.Db.{World, Env, now, next_id}
use oott.Db.DeviceEvents.{is_duplicate, recent_duplicate_exists, insert, event_ids}
use oott.Events.{record_event}

-- The start of the deduplication window of an event that is recorded now.
abbrev pub window_start : Env → World → ℕ
window_start env w =
    now env w - unwrap_or 0 (env.from_std env.settings.device_events.deduplication_window)

-- Whether the table holds a duplicate of an event.
abbrev pub has_duplicate : Env → DeviceEvent → World → Bool
has_duplicate env e w =
    any (is_duplicate env (normalize_mac e.mac_address) e.scanner e.event_type (window_start env w))
      w.tables.device_events

-- The row that `insert` adds.
abbrev pub stored_row : DeviceEvent → List DeviceEvent → DeviceEvent
stored_row e rows = record e {
  mac_address = normalize_mac e.mac_address;
  id = some (next_id (event_ids rows));
}

-- Where no call of the database fails, an event is recorded, behind the others, exactly if the
-- table has no duplicate of it in the window, and otherwise no table changes.
pub record_event_exact :
    (env : Env) (e : DeviceEvent) (w : World)
    → ((n : ℕ) → env.db_fails n ≡ false)
    → ((record_event env e w).0 ≡ not (has_duplicate env e w))
      × ((record_event env e w).1.tables ≡ (
          if has_duplicate env e w then w.tables else record w.tables {
            device_events = w.tables.device_events ++ stored_row e w.tables.device_events ∷ [];
          }))
unfolding record_event recent_duplicate_exists insert
record_event_exact env e w sound = ground (
  arith,
  sound w.db_calls,
  sound (suc w.db_calls),
  sound (suc (suc w.db_calls)),
  sound (suc (suc (suc w.db_calls))),
  count-pos
      (is_duplicate env (normalize_mac e.mac_address) e.scanner e.event_type (window_start env w))
      w.tables.device_events,
)
