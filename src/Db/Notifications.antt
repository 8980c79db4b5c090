-- ===== src/Db/Notifications.antt =====
-- backend/src/db/notifications.rs: the stored notifications.
use oott.Prelude.{
  ℕ, Bool, true, false, not, Option, none, some, List, [], ◌∷◌, ◌++◌, keep, map, update_where, ◌==◌,
}
use mathlib.Core.Option
use oott.Prelude.Int.{ℤ}
use oott.Model.Notification.{Notification}
use oott.Utils.Network.{normalize_mac}
use oott.Db.Sql.{text_le, count_where, order_by, apply_paging, next_id}
use oott.Db.Devices.Listing.{passes, bool_eq}
use oott.Db.Devices.{query_one, with_tables, to_option}
use oott.Db.DeviceEvents.{older_than}
use oott.Db.State.{Tables, World, Env, DbError, Result, ok, Db, get_db_connection, execute, ◌>>◌}

-- The filter that `list` and `count` share.
abbrev pub has_flag : Option Bool → Notification → Bool
has_flag is_new n = passes (λ b. bool_eq n.is_new b) is_new

-- `ORDER BY created_on DESC`.
unfoldable pub newer : Env → Notification → Notification → Bool
unfolding text_le
newer env a b = text_le (env.to_rfc3339_nanos b.created_on) (env.to_rfc3339_nanos a.created_on)

-- `list`.
unfoldable pub list : Env → Option Bool → Option ℤ → Option ℤ → Db (List Notification)
unfolding get_db_connection execute newer order_by apply_paging
list env is_new page_offset page_limit = do
  get_db_connection env
  execute env λ t. ok (
    apply_paging page_offset page_limit
        (order_by (newer env) (keep (has_flag is_new) t.notifications)),
    t,
  )

-- `count`.
unfoldable pub count : Env → Option Bool → Db ℕ
unfolding get_db_connection execute
count env is_new = do
  get_db_connection env
  execute env λ t. ok (count_where (has_flag is_new) t.notifications, t)

abbrev pub insert_row : Notification → Tables → Result DbError (ℕ × Tables)
insert_row notification t =
    let id = next_id (map (λ n. n.id) t.notifications) in
    ok (
      id,
      record t { notifications = t.notifications ++ record notification { id = some id } ∷ [] },
    )

-- `insert`, which returns the rowid.
unfoldable pub insert : Env → Notification → Db ℕ
unfolding get_db_connection execute
insert env notification = do
  get_db_connection env
  execute env (
      insert_row
        (record notification { mac_address = Option.map normalize_mac notification.mac_address }))

abbrev id_is : Option ℕ → ℕ → Bool
id_is none id = false
id_is (some i) id = i == id

-- `WHERE id=?1`.
abbrev pub has_id : ℕ → Notification → Bool
has_id id n = id_is n.id id

abbrev pub set_flag : (Notification → Bool) → Bool → Tables → Result DbError (Unit {0} × Tables)
set_flag p flag t = ok (
  tt,
  record t { notifications = update_where p (λ n. record n { is_new = flag }) t.notifications },
)

-- `mark_as_old`.
unfoldable pub mark_as_old : Env → ℕ → Db (Unit {0})
unfolding get_db_connection execute
mark_as_old env id = do get_db_connection env; execute env (set_flag (has_id id) false)

-- `mark_as_new`.
unfoldable pub mark_as_new : Env → ℕ → Db (Unit {0})
unfolding get_db_connection execute
mark_as_new env id = do get_db_connection env; execute env (set_flag (has_id id) true)

-- `mark_all_as_old`.
unfoldable pub mark_all_as_old : Env → Db (Unit {0})
unfolding get_db_connection execute
mark_all_as_old env = do get_db_connection env; execute env (set_flag (λ n. n.is_new) false)

-- `purge_older_than`, which returns the number of rows deleted.
unfoldable pub purge_older_than : Env → ℕ → Db ℕ
unfolding get_db_connection execute text_le
purge_older_than env cutoff = do
  get_db_connection env
  execute env λ t. ok (
    count_where (λ n. older_than env cutoff n.created_on) t.notifications,
    record t {
      notifications = keep (λ n. not (older_than env cutoff n.created_on)) t.notifications;
    },
  )

unfoldable pub try_read : Env → ℕ → Db Notification
unfolding get_db_connection execute query_one
try_read env id = do
  get_db_connection env
  execute env λ t. with_tables t (query_one (keep (has_id id) t.notifications))

-- `read`: every error, and a notification that is not there, are `None`.
unfoldable pub read : Env → ℕ → World → Option Notification × World
unfolding try_read
read env id w = to_option (try_read env id w)
