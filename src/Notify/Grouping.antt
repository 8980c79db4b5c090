-- ===== src/Notify/Grouping.antt =====
-- What `notify` makes of a list of changes: one notification for each type that has any.
use oott.Prelude.{
  ℕ, ◌≤◌, Bool, true, ◌≡◌, ◌⊎◌, inl, inr, refl, Option, some, List, [], ◌∷◌, ◌++◌, map, length,
  length-append, arith,
}
use oott.Prelude.Text.{Text}
use oott.Model.Device.{Device}
use oott.Model.DeviceEvent.{DeviceChange}
use oott.Model.Notification.{
  Notification, new_notification, NotificationType, new_device_found, device_online_after_time,
  device_changed,
}
use oott.Utils.Network.{normalize_mac}
use mathlib.Core.Option
use oott.Db.{
  World, Env, DeliveryRequest, DbError, Result, ok, err, Outcome, now, read_clock, next_id,
}
use oott.Db.Notifications.{insert}
use oott.Notify.Delivery.{enqueue, delivery_queue_capacity}
use oott.Notify.{
  group, deliver_stored, persist_and_deliver, notify_new_devices, notify_back_online,
  notify_changed, notify,
}

-- The queue never holds more than its capacity.
abbrev pub IsBounded : World → Type 0
IsBounded w = length w.queue ≤ delivery_queue_capacity

-- Each request in the queue has the title and the body of a notification in the table.
abbrev pub IsStored : DeliveryRequest → List Notification → Type 0
IsStored r [] = ⊥
IsStored r (n ∷ ns) = ((r.title ≡ n.title) × (r.body ≡ n.body)) ⊎ IsStored r ns

abbrev pub AllStored : List DeliveryRequest → List Notification → Type 0
AllStored [] ns = Unit
AllStored (r ∷ rs) ns = IsStored r ns × AllStored rs ns

IsStored-append :
    (r : DeliveryRequest) (ns ms : List Notification) → IsStored r ns → IsStored r (ns ++ ms)
IsStored-append r [] ms h = absurd h
IsStored-append r (n ∷ ns) ms (inl h) = inl h
IsStored-append r (n ∷ ns) ms (inr h) = inr (IsStored-append r ns ms h)

IsStored-end :
    (r : DeliveryRequest) (ns : List Notification) (n : Notification)
    → r.title ≡ n.title
    → r.body ≡ n.body
    → IsStored r (ns ++ n ∷ [])
IsStored-end r [] n h k = inl (h, k)
IsStored-end r (m ∷ ns) n h k = inr (IsStored-end r ns n h k)

AllStored-append :
    (rs : List DeliveryRequest) (ns ms : List Notification)
    → AllStored rs ns
    → AllStored rs (ns ++ ms)
AllStored-append [] ns ms h = tt
AllStored-append (r ∷ rs) ns ms (h, k) = (IsStored-append r ns ms h, AllStored-append rs ns ms k)

AllStored-end :
    (rs : List DeliveryRequest) (r : DeliveryRequest) (ns : List Notification)
    → AllStored rs ns
    → IsStored r ns
    → AllStored (rs ++ r ∷ []) ns
AllStored-end [] r ns h k = (k, tt)
AllStored-end (q ∷ rs) r ns (g, h) k = (g, AllStored-end rs r ns h k)

-- The state that the delivery of notifications keeps.
pub record IsDeliverable (w : World) : Type 0 where
  pub bounded : IsBounded w
  pub stored : AllStored w.queue w.tables.notifications

enqueue-IsDeliverable :
    (title body : Text) (w : World)
    → IsDeliverable w
    → IsStored (record { title = title; body = body }) w.tables.notifications
    → IsDeliverable (enqueue title body w)
unfolding enqueue
enqueue-IsDeliverable title body w h stored = ground (
  arith,
  length-append w.queue (record { title = title; body = body } ∷ []),
  AllStored-end w.queue (record { title = title; body = body }) w.tables.notifications h.stored
      stored,
)

-- The insertion keeps the state, and what it returns is stored.
insert-IsDeliverable :
    (env : Env) (n : Notification) (w : World)
    → IsDeliverable w
    → Outcome
        (IsDeliverable (insert env n w).1)
        (λ _.
          IsDeliverable (insert env n w).1
          × IsStored
              (record { title = n.title; body = n.body })
              (insert env n w).1.tables.notifications)
        (insert env n w).0
unfolding insert
insert-IsDeliverable env n w h =
    let ns = w.tables.notifications in
    let row = record n {
      id = some (next_id (map (λ m. m.id) ns));
      mac_address = Option.map normalize_mac n.mac_address;
    } in
    ground (
      arith,
      AllStored-append w.queue ns (row ∷ []) h.stored,
      IsStored-end (record { title = n.title; body = n.body }) ns row refl refl,
    )

deliver-IsDeliverable :
    (title body : Text) (r : Result DbError ℕ × World)
    → Outcome
        (IsDeliverable r.1)
        (λ _.
          IsDeliverable r.1
          × IsStored (record { title = title; body = body }) r.1.tables.notifications)
        r.0
    → IsDeliverable (deliver_stored title body r)
deliver-IsDeliverable title body (ok id, w) (h, k) = enqueue-IsDeliverable title body w h k
deliver-IsDeliverable title body (err e, w) h = h

persist_and_deliver-IsDeliverable :
    (env : Env) (kind : NotificationType) (text : Text × Text) (mac : Option Text) (w : World)
    → IsDeliverable w
    → IsDeliverable (persist_and_deliver env kind text mac w)
unfolding persist_and_deliver
persist_and_deliver-IsDeliverable env kind (title, body) mac w h =
    let n = new_notification (now env w) kind title body true mac in
    deliver-IsDeliverable title body (insert env n (read_clock w)) (
      insert-IsDeliverable env n (read_clock w) (record { bounded = h.bounded; stored = h.stored }))

module _ (env : Env) (duration_text : ℕ → Text) where
  notify_new_devices-IsDeliverable :
      (ds : List Device) (w : World) → IsDeliverable w → IsDeliverable (notify_new_devices env ds w)
  unfolding notify_new_devices
  notify_new_devices-IsDeliverable [] w h = h
  notify_new_devices-IsDeliverable (d ∷ []) w h =
      persist_and_deliver-IsDeliverable env new_device_found _ _ w h
  notify_new_devices-IsDeliverable (d ∷ e ∷ r) w h =
      persist_and_deliver-IsDeliverable env new_device_found _ _ w h

  notify_back_online-IsDeliverable :
      (ds : List (Device × ℕ)) (w : World)
      → IsDeliverable w
      → IsDeliverable (notify_back_online env duration_text ds w)
  unfolding notify_back_online
  notify_back_online-IsDeliverable [] w h = h
  notify_back_online-IsDeliverable ((d, t) ∷ []) w h =
      persist_and_deliver-IsDeliverable env device_online_after_time _ _ w h
  notify_back_online-IsDeliverable (d ∷ e ∷ r) w h =
      persist_and_deliver-IsDeliverable env device_online_after_time _ _ w h

  notify_changed-IsDeliverable :
      (ds : List (Device × Device × Bool × Bool)) (w : World)
      → IsDeliverable w
      → IsDeliverable (notify_changed env ds w)
  unfolding notify_changed
  notify_changed-IsDeliverable [] w h = h
  notify_changed-IsDeliverable ((a, b, i, v) ∷ []) w h =
      persist_and_deliver-IsDeliverable env device_changed _ _ w h
  notify_changed-IsDeliverable (d ∷ e ∷ r) w h =
      persist_and_deliver-IsDeliverable env device_changed _ _ w h

  -- Whatever fails, `notify` keeps the queue within its capacity of 100, and every request in the
  -- queue has the title and the body of a stored notification.
  pub notify-IsDeliverable :
      (changes : List DeviceChange) (w : World)
      → IsDeliverable w
      → IsDeliverable (notify env duration_text changes w)
  unfolding notify
  notify-IsDeliverable changes w h =
      let g = group changes in
      let w₁ = notify_new_devices env g.new_devices w in
      let w₂ = notify_back_online env duration_text g.back_online w₁ in
      notify_changed-IsDeliverable g.changed w₂ (
        notify_back_online-IsDeliverable g.back_online w₁
          (notify_new_devices-IsDeliverable g.new_devices w h))
