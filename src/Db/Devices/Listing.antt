-- ===== src/Db/Devices/Listing.antt =====
-- Listing and counting devices: filters, order and paging, and the summary.
use oott.Prelude.{
  ℕ, ◌-◌, ◌*◌, Bool, true, false, ◌&&◌, ◌||◌, not, Option, none, some, List, [], ◌∷◌, ◌++◌, keep,
  if◌then◌else◌, ◌==◌, leb,
}
use oott.Prelude.Int.{ℤ}
use oott.Prelude.Text.{Text, bytes, is_empty, text_eq, nocase_eq, to_ascii_lowercase, lower_byte}
use oott.Model.Device.{Device, DeviceSummary}
use oott.Db.Sql.{text_le, text_ge, count_where, order_by, apply_paging}
use oott.Db.State.{Env, ok, Db, pure, get_db_connection, execute, utc_now, ◌>>=◌, ◌>>◌}

-- The columns that may be sorted by.
pub data SortColumn : Type 0 where
  name owner mac_address ipv4_address vendor is_registered device_type last_seen : SortColumn

unfoldable pub sort_column_of : Text → SortColumn
unfolding text_eq
sort_column_of s =
    if text_eq s (bytes "name")
    then name
    else if text_eq s (bytes "owner")
    then owner
    else if text_eq s (bytes "mac_address")
    then mac_address
    else if text_eq s (bytes "ipv4_address")
    then ipv4_address
    else if text_eq s (bytes "vendor")
    then vendor
    else if text_eq s (bytes "is_registered")
    then is_registered
    else if text_eq s (bytes "device_type")
    then device_type
    else last_seen

-- `resolve_sort_column`.
unfoldable pub resolve_sort_column : Option Text → SortColumn
unfolding sort_column_of to_ascii_lowercase
resolve_sort_column none = last_seen
resolve_sort_column (some s) = sort_column_of (to_ascii_lowercase s)

-- `resolve_sort_direction`; `true` is ASC.
unfoldable pub resolve_sort_direction : Option Text → Bool
unfolding text_eq to_ascii_lowercase
resolve_sort_direction none = false
resolve_sort_direction (some s) = text_eq (to_ascii_lowercase s) (bytes "asc")

-- SQLite's LIKE: `%` stands for any text and `_` for one character, and ASCII letters match in
-- either case.
unfoldable pub any_suffix : (Text → Bool) → Text → Bool
any_suffix p [] = p []
any_suffix p (b ∷ t) = p (b ∷ t) || any_suffix p t

-- Behind the first byte of a character: its other bytes are from 128 to 191.
unfoldable pub end_of_char : Text → Text
end_of_char [] = []
end_of_char (b ∷ t) = if leb 128 b && leb b 191 then end_of_char t else b ∷ t

abbrev like_one : ℕ → (Text → Bool) → Text → Bool
like_one b p [] = false
like_one b p (c ∷ t) = if b == b'_' then p (end_of_char t) else lower_byte b == lower_byte c && p t

unfoldable pub like : Text → Text → Bool
unfolding any_suffix lower_byte end_of_char
like [] t = is_empty t
like (b ∷ p) t = if b == b'%' then any_suffix (like p) t else like_one b (like p) t

-- The filters of a request, each of which may be absent.
pub record DeviceFilters : Type 0 where
  pub is_registered : Option Bool
  pub last_seen_from : Option ℕ
  pub last_seen_to : Option ℕ
  pub owner : Option Text
  pub device_type : Option Text
  pub vendor : Option Text

abbrev pub passes : {A : Type 0} → (A → Bool) → Option A → Bool
passes p none = true
passes p (some a) = p a

abbrev pub bool_eq : Bool → Bool → Bool
bool_eq true b = b
bool_eq false b = not b

-- `build_device_filters`: the WHERE clause. Times are compared as the texts that stand for them.
unfoldable pub build_device_filters : Env → DeviceFilters → Device → Bool
unfolding text_le like nocase_eq
build_device_filters env f d =
    passes (λ b. bool_eq d.is_registered b) f.is_registered
    && passes (λ at. text_ge (env.to_rfc3339_nanos d.last_seen) (env.to_rfc3339 at))
        f.last_seen_from
    && passes (λ at. text_le (env.to_rfc3339_nanos d.last_seen) (env.to_rfc3339 at)) f.last_seen_to
    && passes (λ o. like (bytes "%" ++ (o ++ bytes "%")) d.owner) f.owner
    && passes (λ k. nocase_eq d.device_type k) f.device_type
    && passes (λ v. nocase_eq d.vendor v) f.vendor

-- The order of a column's values, ascending: texts without regard to case but for the address and
-- the time, NULL before every name, and 0 before 1.
abbrev pub nocase_le : Text → Text → Bool
nocase_le s t = text_le (to_ascii_lowercase s) (to_ascii_lowercase t)

abbrev pub name_le : Option Text → Option Text → Bool
name_le none t = true
name_le (some s) none = false
name_le (some s) (some t) = nocase_le s t

unfoldable pub column_le : Env → SortColumn → Device → Device → Bool
unfolding text_le to_ascii_lowercase
column_le env name a b = name_le a.name b.name
column_le env owner a b = nocase_le a.owner b.owner
column_le env mac_address a b = nocase_le a.mac_address b.mac_address
column_le env ipv4_address a b = text_le a.ipv4_address b.ipv4_address
column_le env vendor a b = nocase_le a.vendor b.vendor
column_le env is_registered a b = not a.is_registered || b.is_registered
column_le env device_type a b = nocase_le a.device_type b.device_type
column_le env last_seen a b =
    text_le (env.to_rfc3339_nanos a.last_seen) (env.to_rfc3339_nanos b.last_seen)

-- `ORDER BY column direction, mac_address ASC`.
unfoldable pub row_before : Env → SortColumn → Bool → Device → Device → Bool
unfolding column_le
row_before env column ascending a b =
    let forward = if ascending then column_le env column a b else column_le env column b a in
    let backward = if ascending then column_le env column b a else column_le env column a b in
    forward && (not backward || nocase_le a.mac_address b.mac_address)

-- `list_devices`.
unfoldable pub list_devices :
    Env → DeviceFilters → Option Text → Option Text → Option ℤ → Option ℤ → Db (List Device)
unfolding get_db_connection execute build_device_filters resolve_sort_column resolve_sort_direction
    row_before order_by apply_paging
list_devices env filters sort_by sort_order page_offset page_limit = do
  get_db_connection env
  execute env λ t. ok (
    apply_paging page_offset page_limit (
        order_by (row_before env (resolve_sort_column sort_by) (resolve_sort_direction sort_order))
          (keep (build_device_filters env filters) t.devices)),
    t,
  )

-- `count_devices`.
unfoldable pub count_devices : Env → DeviceFilters → Db ℕ
unfolding get_db_connection execute build_device_filters
count_devices env filters = do
  get_db_connection env
  execute env λ t. ok (count_where (build_device_filters env filters) t.devices, t)

abbrev pub one_day : ℕ
one_day = 86400000000000

-- One of the four counts of the summary, or with no time the count of the registered devices.
abbrev pub summary_count : Env → Option ℕ → Bool → Db ℕ
summary_count env since registered = execute env λ t. ok (
  count_where
      (λ d.
        passes (λ at. text_ge (env.to_rfc3339_nanos d.last_seen) (env.to_rfc3339 at)) since
        && bool_eq d.is_registered registered)
      t.devices,
  t,
)

-- `get_summary`.
unfoldable pub get_summary : Env → Db DeviceSummary
unfolding get_db_connection execute utc_now text_le
get_summary env = do
  get_db_connection env
  day_now ← utc_now env
  week_now ← utc_now env
  let one_day_ago = day_now - one_day
  let one_week_ago = week_now - 7 * one_day
  total ← summary_count env none true
  day_registered ← summary_count env (some one_day_ago) true
  day_unregistered ← summary_count env (some one_day_ago) false
  week_registered ← summary_count env (some one_week_ago) true
  week_unregistered ← summary_count env (some one_week_ago) false
  pure (record {
    total_registered = total;
    seen_last_day_registered = day_registered;
    seen_last_day_unregistered = day_unregistered;
    seen_last_week_registered = week_registered;
    seen_last_week_unregistered = week_unregistered;
  })
