-- ===== src/Model/Notification.antt =====
-- backend/src/model/notifications.rs: notifications and their types.
use oott.Prelude.{ℕ, Bool, Option, none, List, if◌then◌else◌}
use oott.Prelude.Text.{Text, bytes, text_eq}

pub data NotificationType : Type 0 where
  new_device_found device_online_after_time device_changed other : NotificationType

-- The id that the database has not yet given (-1 in the source) is `none`.
pub record Notification : Type 0 where
  pub id : Option ℕ
  pub created_on : ℕ
  pub notification_type : NotificationType
  pub title : Text
  pub body : Text
  pub is_new : Bool
  pub mac_address : Option Text

pub record NotificationListResponse : Type 0 where
  pub items : List Notification
  pub total_count : ℕ

-- `Notification::new`.
unfoldable pub new_notification :
    ℕ → NotificationType → Text → Text → Bool → Option Text → Notification
new_notification created_on notification_type title body is_new mac_address = record {
  id = none;
  created_on = created_on;
  notification_type = notification_type;
  title = title;
  body = body;
  is_new = is_new;
  mac_address = mac_address;
}

unfoldable pub notification_type_text : NotificationType → Text
notification_type_text new_device_found = bytes "NewDeviceFound"
notification_type_text device_online_after_time = bytes "DeviceOnlineAfterTime"
notification_type_text device_changed = bytes "DeviceChanged"
notification_type_text other = bytes "Other"

-- `FromStr` never fails: any other text is `Other`.
unfoldable pub parse_notification_type : Text → NotificationType
unfolding text_eq
parse_notification_type s =
    if text_eq s (bytes "NewDeviceFound")
    then new_device_found
    else if text_eq s (bytes "DeviceOnlineAfterTime")
    then device_online_after_time
    else if text_eq s (bytes "DeviceChanged")
    then device_changed
    else other
