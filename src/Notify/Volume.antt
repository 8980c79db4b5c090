-- ===== src/Notify/Volume.antt =====
-- How much `notify` adds, whatever the number of changes.
use oott.Prelude.{
  ℕ, ◌+◌, ◌≤◌, Bool, true, some, map, ◌≡◌, refl, ◌∙◌, Option, List, [], ◌∷◌, length, length-append,
  arith,
}
use oott.Prelude.Text.{Text}
use oott.Model.Device.{Device}
use oott.Model.DeviceEvent.{DeviceChange}
use oott.Model.Notification.{
  Notification, new_notification, NotificationType, new_device_found, device_online_after_time,
  device_changed,
}
use mathlib.Core.Option
use oott.Utils.Network.{normalize_mac}
use oott.Db.{World, Env, DbError, Result, ok, err, now, read_clock, next_id}
use oott.Db.Notifications.{insert}
use oott.Notify.Delivery.{enqueue}
use oott.Notify.{
  group, deliver_stored, persist_and_deliver, notify_new_devices, notify_back_online,
  notify_changed, notify,
}

-- At most some notifications and as many requests more, the same devices and events, and a queue within its
-- capacity.
pub record Adds (n : ℕ) (w w' : World) : Type 0 where
  pub notifications : length w'.tables.notifications ≤ length w.tables.notifications + n
  pub queue : length w'.queue ≤ length w.queue + n
  pub devices : w'.tables.devices ≡ w.tables.devices
  pub events : w'.tables.device_events ≡ w.tables.device_events
  pub bounded : length w.queue ≤ 100 → length w'.queue ≤ 100

pub Adds-trans : {m n : ℕ} {u v w : World} → Adds m u v → Adds n v w → Adds (m + n) u w
Adds-trans h k = record {
  notifications = omega (arith, h.notifications, k.notifications);
  queue = omega (arith, h.queue, k.queue);
  devices = k.devices ∙ h.devices;
  events = k.events ∙ h.events;
  bounded = λ b. k.bounded (h.bounded b);
}

pub Adds-nothing : (n : ℕ) (w : World) → Adds n w w
Adds-nothing n w = record {
  notifications = omega arith;
  queue = omega arith;
  devices = refl;
  events = refl;
  bounded = λ b. b;
}

-- One notification more, and nothing yet in the queue.
record IsInserted (w w' : World) : Type 0 where
  notifications : length w'.tables.notifications ≤ length w.tables.notifications + 1
  queue : w'.queue ≡ w.queue
  devices : w'.tables.devices ≡ w.tables.devices
  events : w'.tables.device_events ≡ w.tables.device_events

insert-IsInserted : (env : Env) (n : Notification) (w : World) → IsInserted w (insert env n w).1
unfolding insert
insert-IsInserted env n w =
    let row = record n {
      id = some (next_id (map (λ m. m.id) w.tables.notifications));
      mac_address = Option.map normalize_mac n.mac_address;
    } in
    ground (arith, length-append w.tables.notifications (row ∷ []))

deliver_stored-Adds :
    (title body : Text) (r : Result DbError ℕ × World) (w : World)
    → IsInserted w r.1
    → Adds 1 w (deliver_stored title body r)
unfolding enqueue
deliver_stored-Adds title body (ok id, v) w h =
    let longer = length-append v.queue (record { title = title; body = body } ∷ []) in
    record {
      notifications = ground arith;
      queue = ground (arith, longer);
      devices = ground arith;
      events = ground arith;
      bounded = λ b. ground (arith, longer);
    }
deliver_stored-Adds title body (err e, v) w h = record {
  notifications = omega (arith, h.notifications);
  queue = ground arith;
  devices = h.devices;
  events = h.events;
  bounded = λ b. ground arith;
}

persist_and_deliver-Adds :
    (env : Env) (kind : NotificationType) (text : Text × Text) (mac : Option Text) (w : World)
    → Adds 1 w (persist_and_deliver env kind text mac w)
unfolding persist_and_deliver
persist_and_deliver-Adds env kind (title, body) mac w =
    let n = new_notification (now env w) kind title body true mac in
    let h = insert-IsInserted env n (read_clock w) in
    deliver_stored-Adds title body (insert env n (read_clock w)) w (record {
      notifications = h.notifications;
      queue = h.queue;
      devices = h.devices;
      events = h.events;
    })

module _ (env : Env) (duration_text : ℕ → Text) where
  notify_new_devices-Adds : (ds : List Device) (w : World) → Adds 1 w (notify_new_devices env ds w)
  unfolding notify_new_devices
  notify_new_devices-Adds [] w = Adds-nothing 1 w
  notify_new_devices-Adds (d ∷ []) w = persist_and_deliver-Adds env new_device_found _ _ w
  notify_new_devices-Adds (d ∷ e ∷ r) w = persist_and_deliver-Adds env new_device_found _ _ w

  notify_back_online-Adds :
      (ds : List (Device × ℕ)) (w : World) → Adds 1 w (notify_back_online env duration_text ds w)
  unfolding notify_back_online
  notify_back_online-Adds [] w = Adds-nothing 1 w
  notify_back_online-Adds ((d, t) ∷ []) w =
      persist_and_deliver-Adds env device_online_after_time _ _ w
  notify_back_online-Adds (d ∷ e ∷ r) w =
      persist_and_deliver-Adds env device_online_after_time _ _ w

  notify_changed-Adds :
      (ds : List (Device × Device × Bool × Bool)) (w : World) → Adds 1 w (notify_changed env ds w)
  unfolding notify_changed
  notify_changed-Adds [] w = Adds-nothing 1 w
  notify_changed-Adds ((a, b, i, v) ∷ []) w = persist_and_deliver-Adds env device_changed _ _ w
  notify_changed-Adds (d ∷ e ∷ r) w = persist_and_deliver-Adds env device_changed _ _ w

  pub notify-Adds : (cs : List DeviceChange) (w : World) → Adds 3 w (notify env duration_text cs w)
  unfolding notify
  notify-Adds cs w =
      let g = group cs in
      let w₁ = notify_new_devices env g.new_devices w in
      let w₂ = notify_back_online env duration_text g.back_online w₁ in
      Adds-trans
        (Adds-trans (notify_new_devices-Adds g.new_devices w)
          (notify_back_online-Adds g.back_online w₁))
        (notify_changed-Adds g.changed w₂)
