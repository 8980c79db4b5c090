-- ===== src/Events/Duplicates.antt =====
-- Which events `record_event` suppresses, and what it stores of the others.
use oott.Prelude.{
  ℕ, ◌≤◌, true, false, ◌≡◌, ◌↔◌, ◌⊎◌, inl, inr, List, [], ◌∷◌, ◌++◌, any, arith, count-pos,
  if◌then◌else◌, le→leb, leb→le, Bool-cases,
}
use oott.Prelude.Text.{
  Text, text_eq, text_eq_iff, nocase_eq, to_ascii_lowercase, to_ascii_lowercase_idem,
}
use oott.Model.DeviceEvent.{
  DeviceEvent, DeviceEventType, DeviceEventScanner, event_type_text, scanner_text,
}
use oott.Utils.Network.{normalize_mac}
use oott.Db.{World, Env, text_le}
use oott.Db.Chronology.{IsChronological}
use oott.Db.DeviceEvents.{is_duplicate, recent_duplicate_exists, insert}
use oott.Events.{record_event}
use oott.Events.Deduplication.{window_start, has_duplicate, stored_row, record_event_exact}

-- A stored event of the same device, scanner and type, in the window.
abbrev pub IsDuplicateOf : DeviceEvent → (since : ℕ) → DeviceEvent → Type 0
IsDuplicateOf e since row =
    (normalize_mac row.mac_address ≡ normalize_mac e.mac_address)
    × (row.scanner ≡ e.scanner)
    × (row.event_type ≡ e.event_type)
    × (since ≤ row.created_on)

abbrev pub HasDuplicate : DeviceEvent → (since : ℕ) → List DeviceEvent → Type 0
HasDuplicate e since [] = ⊥
HasDuplicate e since (row ∷ rows) = IsDuplicateOf e since row ⊎ HasDuplicate e since rows

scanner_same :
    (a b : DeviceEventScanner) → (nocase_eq (scanner_text a) (scanner_text b) ≡ true) ↔ (a ≡ b)
unfolding scanner_text nocase_eq to_ascii_lowercase text_eq
scanner_same a b = ground arith

event_type_same :
    (a b : DeviceEventType) → (nocase_eq (event_type_text a) (event_type_text b) ≡ true) ↔ (a ≡ b)
unfolding event_type_text nocase_eq to_ascii_lowercase text_eq
event_type_same a b = ground arith

mac_same :
    (a b : Text) → (nocase_eq a (normalize_mac b) ≡ true) ↔ (normalize_mac a ≡ normalize_mac b)
unfolding nocase_eq normalize_mac
mac_same a b =
    rw (to_ascii_lowercase_idem b) (text_eq_iff (to_ascii_lowercase a) (to_ascii_lowercase b))

since_iff :
    (env : Env) (since at : ℕ)
    → IsChronological env
    → (text_le (env.to_rfc3339_nanos since) (env.to_rfc3339_nanos at) ≡ true) ↔ (since ≤ at)
since_iff env since at chronological =
    rw (chronological.stored_order since at) (leb→le since at, le→leb since at)

is_duplicate_iff :
    (env : Env) (e : DeviceEvent) (since : ℕ) (row : DeviceEvent)
    → IsChronological env
    → (is_duplicate env (normalize_mac e.mac_address) e.scanner e.event_type since row ≡ true)
      ↔ IsDuplicateOf e since row
unfolding is_duplicate
is_duplicate_iff env e since row chronological = ground (
  arith,
  mac_same row.mac_address e.mac_address,
  scanner_same row.scanner e.scanner,
  event_type_same row.event_type e.event_type,
  since_iff env since row.created_on chronological,
)

any_iff :
    (env : Env) (e : DeviceEvent) (since : ℕ) (rows : List DeviceEvent)
    → IsChronological env
    → (any (is_duplicate env (normalize_mac e.mac_address) e.scanner e.event_type since) rows
        ≡ true)
      ↔ HasDuplicate e since rows
any_iff env e since [] chronological = ground arith
any_iff env e since (row ∷ rows) chronological =
    ground (
      arith,
      is_duplicate_iff env e since row chronological,
      any_iff env e since rows chronological,
    )

-- Where no call of the database fails and the texts of times sort as the times do: an event is
-- suppressed exactly if the table holds an event of the same MAC address up to case, the same
-- scanner and the same type, whatever its IPv4 address, that is not older than the window; then no
-- table changes, and else the event is added behind the others, its MAC address in lower case and
-- with a new id, and nothing else changes.
pub record_event_iff :
    (env : Env) (e : DeviceEvent) (w : World)
    → ((n : ℕ) → env.db_fails n ≡ false)
    → IsChronological env
    → (((record_event env e w).0 ≡ false)
        ↔ HasDuplicate e (window_start env w) w.tables.device_events)
      × ((record_event env e w).1.tables ≡ (
          if (record_event env e w).0
          then record w.tables {
            device_events = w.tables.device_events ++ stored_row e w.tables.device_events ∷ [];
          }
          else w.tables))
record_event_iff env e w sound chronological =
    let known = any_iff env e (window_start env w) w.tables.device_events chronological in
    let (answer, tables) = record_event_exact env e w sound in
    elim (Bool-cases (has_duplicate env e w)) [
      | inl there ↦ ground (arith, known, answer, tables, there)
      | inr absent ↦ ground (arith, known, answer, tables, absent)
    ]

-- Whatever fails, in a world where the texts of times sort as the times do: an event is reported as
-- suppressed only if the table holds a duplicate of it in the window, and then no table changes;
-- where it is reported as recorded, it was added behind the others or no table changes.
pub record_event_outcome :
    (env : Env) (e : DeviceEvent) (w : World)
    → IsChronological env
    → (((record_event env e w).0 ≡ false)
        × HasDuplicate e (window_start env w) w.tables.device_events
        × ((record_event env e w).1.tables ≡ w.tables))
      ⊎ (((record_event env e w).0 ≡ true)
          × (((record_event env e w).1.tables ≡ w.tables)
              ⊎ ((record_event env e w).1.tables ≡ record w.tables {
                device_events = w.tables.device_events ++ stored_row e w.tables.device_events ∷ [];
              })))
unfolding record_event recent_duplicate_exists insert
record_event_outcome env e w chronological =
    let known = any_iff env e (window_start env w) w.tables.device_events chronological in
    let counted =
      count-pos
        (is_duplicate env (normalize_mac e.mac_address) e.scanner e.event_type (window_start env w))
        w.tables.device_events in
    ground (arith, known, counted)
