-- ===== src/Db/DeviceEvents.antt =====
-- backend/src/db/device_events.rs: the history of device events.
use oott.Prelude.{
  ℕ, Bool, ◌&&◌, ◌||◌, not, Option, some, List, [], ◌∷◌, ◌++◌, keep, map, ltb, leb, unwrap_or,
}
use oott.Prelude.Int.{ℤ}
use oott.Prelude.Text.{Text, nocase_eq}
use oott.Model.DeviceEvent.{
  DeviceEvent, DeviceEventType, DeviceEventScanner, event_type_text, scanner_text,
}
use oott.Utils.Network.{normalize_mac}
use oott.Db.Sql.{text_le, text_ge, count_where, order_by, apply_paging, next_id}
use oott.Db.Devices.Listing.{passes}
use oott.Db.State.{Tables, Env, DbError, Result, ok, Db, get_db_connection, execute, ◌>>◌}

abbrev pub event_ids : List DeviceEvent → List (Option ℕ)
event_ids = map (λ e. e.id)

abbrev pub insert_event_row : DeviceEvent → Tables → Result DbError (ℕ × Tables)
insert_event_row event t =
    let id = next_id (event_ids t.device_events) in
    ok (id, record t { device_events = t.device_events ++ record event { id = some id } ∷ [] })

-- `insert`, which returns the rowid.
unfoldable pub insert : Env → DeviceEvent → Db ℕ
unfolding get_db_connection execute
insert env event = do
  get_db_connection env
  execute env (insert_event_row (record event { mac_address = normalize_mac event.mac_address }))

-- The WHERE clause of the deduplication: same device, scanner and type, at or after `since`.
unfoldable pub is_duplicate :
    Env → Text → DeviceEventScanner → DeviceEventType → ℕ → DeviceEvent → Bool
unfolding nocase_eq event_type_text scanner_text text_le
is_duplicate env mac scanner event_type since e =
    nocase_eq e.mac_address mac
    && nocase_eq (scanner_text e.scanner) (scanner_text scanner)
    && nocase_eq (event_type_text e.event_type) (event_type_text event_type)
    && text_ge (env.to_rfc3339_nanos e.created_on) (env.to_rfc3339_nanos since)

-- `recent_duplicate_exists`.
unfoldable pub recent_duplicate_exists :
    Env → Text → DeviceEventScanner → DeviceEventType → ℕ → Db Bool
unfolding get_db_connection execute
recent_duplicate_exists env mac_address scanner event_type since = do
  get_db_connection env
  execute env λ t. ok (
    ltb 0 (
        count_where (is_duplicate env (normalize_mac mac_address) scanner event_type since)
          t.device_events),
    t,
  )

abbrev pub of_device : Option Text → DeviceEvent → Bool
of_device mac e = passes (λ m. nocase_eq e.mac_address (normalize_mac m)) mac

-- `ORDER BY created_on DESC, id DESC`.
unfoldable pub event_before : Env → DeviceEvent → DeviceEvent → Bool
unfolding text_le
event_before env a b =
    let s = env.to_rfc3339_nanos a.created_on in
    let t = env.to_rfc3339_nanos b.created_on in
    text_le t s && (not (text_le s t) || leb (unwrap_or 0 b.id) (unwrap_or 0 a.id))

-- `list`.
unfoldable pub list : Env → Option Text → Option ℕ → Option ℤ → Option ℤ → Db (List DeviceEvent)
unfolding get_db_connection execute event_before order_by apply_paging nocase_eq normalize_mac
list env mac_address created_from page_offset page_limit = do
  get_db_connection env
  execute env λ t. ok (
    apply_paging page_offset page_limit (
        order_by (event_before env) (
          keep
            (λ e.
              of_device mac_address e
              && passes (λ at. text_ge (env.to_rfc3339_nanos e.created_on) (env.to_rfc3339 at))
                  created_from)
            t.device_events)),
    t,
  )

-- `created_on < ?1`, over the texts of the times.
abbrev pub older_than : Env → ℕ → ℕ → Bool
older_than env cutoff created_on =
    not (text_le (env.to_rfc3339 cutoff) (env.to_rfc3339_nanos created_on))

-- `purge_older_than`, which returns the number of rows deleted.
unfoldable pub purge_older_than : Env → ℕ → Db ℕ
unfolding get_db_connection execute text_le
purge_older_than env cutoff = do
  get_db_connection env
  execute env λ t. ok (
    count_where (λ e. older_than env cutoff e.created_on) t.device_events,
    record t {
      device_events = keep (λ e. not (older_than env cutoff e.created_on)) t.device_events;
    },
  )
