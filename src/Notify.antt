-- ===== src/Notify.antt =====
-- backend/src/notifications.rs: grouping the changes of a scan into notifications.
pub mod Grouping
pub mod Volume
pub mod Headlines
pub mod Render
pub mod Delivery
pub mod Relay
pub mod Delivering
use oott.Prelude.{ℕ, Bool, true, Option, none, some, List, [], ◌∷◌, map}
use oott.Prelude.Text.{Text}
use oott.Model.Device.{Device}
use oott.Model.DeviceEvent.{DeviceChange, back_online, changed}
use oott.Model.Notification.{
  NotificationType, new_device_found, device_online_after_time, device_changed, new_notification,
}
use oott.Db.{World, Env, DbError, Result, ok, err, now, read_clock}
use oott.Db.Notifications.{insert}
use Render.{
  render_new_device, render_new_devices_summary, render_device_back_online,
  render_back_online_summary, render_device_changed, render_changed_summary,
}
use Delivery.{enqueue}

-- The three lists that `notify` fills.
pub record Grouped : Type 0 where
  pub new_devices : List Device
  pub back_online : List (Device × ℕ)
  pub changed : List (Device × Device × Bool × Bool)

abbrev pub push_change : DeviceChange → Grouped → Grouped
push_change (DeviceChange.new device) g = record g { new_devices = device ∷ g.new_devices }
push_change (DeviceChange.back_online device absent_for) g = record g {
  back_online = (device, absent_for) ∷ g.back_online;
}
push_change (DeviceChange.changed existing sighted ip vendor) g = record g {
  changed = (existing, sighted, ip, vendor) ∷ g.changed;
}

-- The loop of `notify` over the changes.
unfoldable pub group : List DeviceChange → Grouped
group [] = record { new_devices = []; back_online = []; changed = [] }
group (change ∷ changes) = push_change change (group changes)

abbrev deliver_stored : Text → Text → Result DbError ℕ × World → World
deliver_stored title body (ok id, w) = enqueue title body w
deliver_stored title body (err e, w) = w

-- `persist_and_deliver`: what could not be stored is not delivered.
unfoldable pub persist_and_deliver :
    Env → NotificationType → Text × Text → Option Text → World → World
unfolding insert new_notification enqueue
persist_and_deliver env notification_type (title, body) mac_address w = deliver_stored title body (
    insert env (new_notification (now env w) notification_type title body true mac_address)
      (read_clock w))

-- `notify_new_devices`.
unfoldable pub notify_new_devices : Env → List Device → World → World
notify_new_devices env [] w = w
notify_new_devices env (device ∷ []) w =
    persist_and_deliver env new_device_found (render_new_device device) (some device.mac_address) w
notify_new_devices env (a ∷ b ∷ r) w =
    persist_and_deliver env new_device_found (render_new_devices_summary (a ∷ b ∷ r)) none w

-- `notify_back_online`. `duration_text` is the `duration-string` library's text of a duration.
unfoldable pub notify_back_online : Env → (ℕ → Text) → List (Device × ℕ) → World → World
notify_back_online env duration_text [] w = w
notify_back_online env duration_text ((device, absent_for) ∷ []) w =
    persist_and_deliver env device_online_after_time
      (render_device_back_online device (duration_text absent_for)) (some device.mac_address) w
notify_back_online env duration_text (a ∷ b ∷ r) w =
    persist_and_deliver env device_online_after_time
      (render_back_online_summary (map (λ p. p.0) (a ∷ b ∷ r))) none w

-- `notify_changed`.
unfoldable pub notify_changed : Env → List (Device × Device × Bool × Bool) → World → World
notify_changed env [] w = w
notify_changed env ((existing, sighted, ip, vendor) ∷ []) w =
    persist_and_deliver env device_changed (render_device_changed existing sighted ip vendor)
      (some sighted.mac_address) w
notify_changed env (a ∷ b ∷ r) w =
    persist_and_deliver env device_changed (render_changed_summary (map (λ p. p.1) (a ∷ b ∷ r)))
      none w

-- `notify`.
unfoldable pub notify : Env → (ℕ → Text) → List DeviceChange → World → World
unfolding group notify_new_devices notify_back_online notify_changed
notify env duration_text changes w =
    let g = group changes in
    notify_changed env g.changed
      (notify_back_online env duration_text g.back_online (notify_new_devices env g.new_devices w))
