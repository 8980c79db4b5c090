-- ===== src/Db/Rows/Columns.antt =====
-- The values of SQLite's columns, and the types of the program as they are written to them and read
-- from them: `ToSql` and `FromSql` of backend/src/model, and `rusqlite`'s own.
use oott.Prelude.{ℕ, zero, suc, Bool, true, false, Option, none, some, if◌then◌else◌}
use mathlib.Core.Option
use oott.Prelude.Int.{ℤ, pos, negsuc}
use oott.Prelude.Text.{Text}
use oott.Model.DeviceEvent.{
  DeviceEventType, DeviceEventScanner, event_type_text, parse_event_type, scanner_text,
  parse_scanner,
}
use oott.Model.Notification.{NotificationType, notification_type_text, parse_notification_type}
use oott.Model.PushToken.{PushPlatform, platform_text, parse_platform}

-- `rusqlite`'s values; the numbers of reals and the bytes of blobs play no part.
pub data SqlValue : Type 0 where
  null real blob : SqlValue
  integer : ℤ → SqlValue
  text : Text → SqlValue

infixl 5 ◌>>=◌
abbrev pub ◌>>=◌ : {A B : Type 0} → Option A → (A → Option B) → Option B
none >>= f = none
some a >>= f = f a

-- `row.get` at the types of the columns; `none` is its error. The texts in the tables were written
-- from strings, so that they are UTF-8.
abbrev pub get_text : SqlValue → Option Text
get_text (text t) = some t
get_text _ = none

abbrev pub get_integer : SqlValue → Option ℤ
get_integer (integer z) = some z
get_integer _ = none

abbrev pub is_nonzero : ℤ → Bool
is_nonzero (pos zero) = false
is_nonzero (pos (suc n)) = true
is_nonzero (negsuc n) = true

abbrev pub get_bool : SqlValue → Option Bool
get_bool v = Option.map is_nonzero (get_integer v)

abbrev pub get_nullable : SqlValue → Option (Option Text)
get_nullable null = some none
get_nullable v = Option.map some (get_text v)

-- An id is given by SQLite, from 1; -1 stands for none in the source.
abbrev pub id_of : ℤ → Option ℕ
id_of (pos n) = some n
id_of (negsuc n) = none

-- `ToSql` of a Boolean, of an optional text, and of a rowid.
abbrev pub bool_value : Bool → SqlValue
bool_value b = integer (pos (if b then 1 else 0))

abbrev pub text_value : Option Text → SqlValue
text_value none = null
text_value (some t) = text t

-- `FromSql::column_result` of the enumerations.
unfoldable pub event_type_column : SqlValue → Option DeviceEventType
unfolding parse_event_type
event_type_column v = get_text v >>= parse_event_type

unfoldable pub scanner_column : SqlValue → Option DeviceEventScanner
unfolding parse_scanner
scanner_column v = get_text v >>= parse_scanner

unfoldable pub notification_type_column : SqlValue → Option NotificationType
unfolding parse_notification_type
notification_type_column v = Option.map parse_notification_type (get_text v)

unfoldable pub platform_column : SqlValue → Option PushPlatform
unfolding parse_platform
platform_column v = get_text v >>= parse_platform

-- `ToSql::to_sql` of them.
unfoldable pub event_type_value : DeviceEventType → SqlValue
unfolding event_type_text
event_type_value t = text (event_type_text t)

unfoldable pub scanner_value : DeviceEventScanner → SqlValue
unfolding scanner_text
scanner_value s = text (scanner_text s)

unfoldable pub notification_type_value : NotificationType → SqlValue
unfolding notification_type_text
notification_type_value t = text (notification_type_text t)

unfoldable pub platform_value : PushPlatform → SqlValue
unfolding platform_text
platform_value p = text (platform_text p)
