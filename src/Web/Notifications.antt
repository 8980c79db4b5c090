-- ===== src/Web/Notifications.antt =====
-- backend/src/web_server/notifications.rs: the handlers for notifications.
pub mod Marking
use oott.Prelude.{ℕ, Bool, Option, none, some, List, [], ◌∷◌, ◌++◌}
use oott.Prelude.Int.{ℤ}
use oott.Prelude.Text.{Text, bytes}
use oott.Model.Notification.{Notification, NotificationListResponse}
use oott.Settings.{default_push}
use oott.Db.{World, Env, DbError, Result, ok, err}
use oott.Db.Notifications as Store
use oott.Notify.Relay.{DeliveryError, Relay, send}
use oott.Prelude.{unwrap_or}
use oott.Web.Http.{success, not_found, internal_server_error, Reply, Answer, json, failed}
use oott.Web.Devices.{reply_to}

abbrev found : Option Notification × World → Answer Notification × World
found (none, w) = (failed not_found, w)
found (some n, w) = (json n, w)

unfoldable pub read_marked :
    Env → ℕ → Result DbError (Unit {0}) × World → Answer Notification × World
read_marked env id (err e, w) = (failed internal_server_error, w)
read_marked env id (ok _, w) = found (Store.read env id w)

-- `read`: marks the notification as old before it reads it.
unfoldable pub read : Env → ℕ → World → Answer Notification × World
unfolding read_marked Store.read Store.mark_as_old
read env id w = read_marked env id (Store.mark_as_old env id w)

-- `read_without_flagging`.
unfoldable pub read_without_flagging : Env → ℕ → World → Answer Notification × World
unfolding Store.read
read_without_flagging env id w = found (Store.read env id w)

-- `mark_as_new`.
unfoldable pub mark_as_new : Env → ℕ → World → Reply × World
unfolding Store.mark_as_new
mark_as_new env id w =
    reply_to (success, bytes "Notification marked as new")
      (bytes "Error updating notification in the server, check your logs")
      (Store.mark_as_new env id w)

-- `mark_all_as_old`.
unfoldable pub mark_all_as_old : Env → World → Reply × World
unfolding Store.mark_all_as_old
mark_all_as_old env w =
    reply_to (success, bytes "All notifications marked as old")
      (bytes "Error updating notifications in the server, check your logs")
      (Store.mark_all_as_old env w)

-- The dash of the text is the three bytes of U+2014.
abbrev pub test_body : Text
test_body =
    bytes "Test notification "
    ++ ((226 ∷ 128 ∷ 148 ∷ []) ++ bytes " push is working on this device.")

abbrev pub delivered_answer : Result DeliveryError ℕ × World → Answer ℕ × World
delivered_answer (ok delivered, w) = (json delivered, w)
delivered_answer (err e, w) = (failed internal_server_error, w)

-- `send_test`, with `notifications::send_test_push`.
unfoldable pub send_test : Env → Relay → World → Answer ℕ × World
unfolding send default_push
send_test env relay w = delivered_answer (
    send env relay (unwrap_or default_push env.settings.notifications.push) (bytes "OOTT test")
      test_body w)

abbrev with_items :
    List Notification → Result DbError ℕ × World → Answer NotificationListResponse × World
with_items items (ok n, w) = (json (record { items = items; total_count = n }), w)
with_items items (err e, w) = (failed internal_server_error, w)

unfoldable pub then_count :
    Env
    → Option Bool
    → Result DbError (List Notification) × World
    → Answer NotificationListResponse × World
then_count env is_new (err e, w) = (failed internal_server_error, w)
then_count env is_new (ok items, w) = with_items items (Store.count env is_new w)

-- `list`, with its parameters parsed.
unfoldable pub list :
    Env → Option Bool → Option ℤ → Option ℤ → World → Answer NotificationListResponse × World
unfolding then_count Store.list Store.count
list env is_new page_offset page_limit w =
    then_count env is_new (Store.list env is_new page_offset page_limit w)
