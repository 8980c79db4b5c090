-- ===== src/Notify/Headlines.antt =====
-- The notifications that `notify` stores, by their type and MAC address.
use oott.Prelude.{
  ℕ, suc, Bool, true, false, ◌≡◌, refl, sym, ap, ◌∙◌, Option, none, some, List, [], ◌∷◌, ◌++◌, map,
  arith,
}
use mathlib.Core.Option
use mathlib.Core.List.{map-append, append-nil, append_assoc}
use oott.Prelude.Text.{Text}
use oott.Model.Device.{Device}
use oott.Model.DeviceEvent.{DeviceChange}
use oott.Model.Notification.{
  Notification, NotificationType, new_device_found, device_online_after_time, device_changed,
  new_notification,
}
use oott.Utils.Network.{normalize_mac}
use oott.Db.{World, Env, DbError, Result, ok, err, now, read_clock}
use oott.Db.Notifications.{insert}
use oott.Notify.Delivery.{enqueue}
use oott.Notify.{
  group, deliver_stored, persist_and_deliver, notify_new_devices, notify_back_online,
  notify_changed, notify,
}

abbrev pub Headline : Type 0
Headline = NotificationType × Option Text

abbrev pub headline : Notification → Headline
headline n = (n.notification_type, n.mac_address)

abbrev pub headlines : World → List Headline
headlines w = map headline w.tables.notifications

-- The devices of each kind of change, in the order of the changes.
abbrev pub new_ones : List DeviceChange → List Device
new_ones [] = []
new_ones (DeviceChange.new d ∷ cs) = d ∷ new_ones cs
new_ones (DeviceChange.back_online d t ∷ cs) = new_ones cs
new_ones (DeviceChange.changed a b i v ∷ cs) = new_ones cs

abbrev pub returned_ones : List DeviceChange → List Device
returned_ones [] = []
returned_ones (DeviceChange.new d ∷ cs) = returned_ones cs
returned_ones (DeviceChange.back_online d t ∷ cs) = d ∷ returned_ones cs
returned_ones (DeviceChange.changed a b i v ∷ cs) = returned_ones cs

abbrev pub changed_ones : List DeviceChange → List Device
changed_ones [] = []
changed_ones (DeviceChange.new d ∷ cs) = changed_ones cs
changed_ones (DeviceChange.back_online d t ∷ cs) = changed_ones cs
changed_ones (DeviceChange.changed a b i v ∷ cs) = b ∷ changed_ones cs

-- The notification for the devices of one kind: none, one with the MAC address, or a summary.
abbrev pub one_or_summary : NotificationType → List Device → List Headline
one_or_summary kind [] = []
one_or_summary kind (d ∷ []) = (kind, some (normalize_mac d.mac_address)) ∷ []
one_or_summary kind (d ∷ e ∷ r) = (kind, none) ∷ []

group-new_ones : (cs : List DeviceChange) → (group cs).new_devices ≡ new_ones cs
unfolding group
group-new_ones [] = refl
group-new_ones (DeviceChange.new d ∷ cs) = ap (λ l. d ∷ l) (group-new_ones cs)
group-new_ones (DeviceChange.back_online d t ∷ cs) = group-new_ones cs
group-new_ones (DeviceChange.changed a b i v ∷ cs) = group-new_ones cs

group-returned_ones :
    (cs : List DeviceChange) → map (λ p. p.0) (group cs).back_online ≡ returned_ones cs
unfolding group
group-returned_ones [] = refl
group-returned_ones (DeviceChange.new d ∷ cs) = group-returned_ones cs
group-returned_ones (DeviceChange.back_online d t ∷ cs) = ap (λ l. d ∷ l) (group-returned_ones cs)
group-returned_ones (DeviceChange.changed a b i v ∷ cs) = group-returned_ones cs

group-changed_ones : (cs : List DeviceChange) → map (λ p. p.1) (group cs).changed ≡ changed_ones cs
unfolding group
group-changed_ones [] = refl
group-changed_ones (DeviceChange.new d ∷ cs) = group-changed_ones cs
group-changed_ones (DeviceChange.back_online d t ∷ cs) = group-changed_ones cs
group-changed_ones (DeviceChange.changed a b i v ∷ cs) = ap (λ l. b ∷ l) (group-changed_ones cs)

deliver_stored-headlines :
    (title body : Text) (r : Result DbError ℕ × World)
    → headlines (deliver_stored title body r) ≡ headlines r.1
unfolding enqueue
deliver_stored-headlines title body (ok id, w) = ground arith
deliver_stored-headlines title body (err e, w) = refl

module _ (env : Env) (duration_text : ℕ → Text) (sound : (n : ℕ) → env.db_fails n ≡ false) where
  insert-headlines :
      (n : Notification) (w : World)
      → headlines (insert env n w).1
        ≡ headlines w ++ (n.notification_type, Option.map normalize_mac n.mac_address) ∷ []
  unfolding insert
  insert-headlines n w =
      rw (sound w.db_calls, sound (suc w.db_calls)) (map-append headline w.tables.notifications _)

  persist_and_deliver-headlines :
      (kind : NotificationType) (text : Text × Text) (mac : Option Text) (w : World)
      → headlines (persist_and_deliver env kind text mac w)
        ≡ headlines w ++ (kind, Option.map normalize_mac mac) ∷ []
  unfolding persist_and_deliver new_notification
  persist_and_deliver-headlines kind (title, body) mac w =
      let n = new_notification (now env w) kind title body true mac in
      deliver_stored-headlines title body (insert env n (read_clock w))
      ∙ insert-headlines n (read_clock w)

  notify_new_devices-headlines :
      (ds : List Device) (w : World)
      → headlines (notify_new_devices env ds w) ≡ headlines w ++ one_or_summary new_device_found ds
  unfolding notify_new_devices
  notify_new_devices-headlines [] w = sym (append-nil _)
  notify_new_devices-headlines (d ∷ []) w =
      persist_and_deliver-headlines new_device_found _ (some d.mac_address) w
  notify_new_devices-headlines (d ∷ e ∷ r) w =
      persist_and_deliver-headlines new_device_found _ none w

  notify_back_online-headlines :
      (ds : List (Device × ℕ)) (w : World)
      → headlines (notify_back_online env duration_text ds w)
        ≡ headlines w ++ one_or_summary device_online_after_time (map (λ p. p.0) ds)
  unfolding notify_back_online
  notify_back_online-headlines [] w = sym (append-nil _)
  notify_back_online-headlines ((d, t) ∷ []) w =
      persist_and_deliver-headlines device_online_after_time _ (some d.mac_address) w
  notify_back_online-headlines (d ∷ e ∷ r) w =
      persist_and_deliver-headlines device_online_after_time _ none w

  notify_changed-headlines :
      (ds : List (Device × Device × Bool × Bool)) (w : World)
      → headlines (notify_changed env ds w)
        ≡ headlines w ++ one_or_summary device_changed (map (λ p. p.1) ds)
  unfolding notify_changed
  notify_changed-headlines [] w = sym (append-nil _)
  notify_changed-headlines ((a, b, i, v) ∷ []) w =
      persist_and_deliver-headlines device_changed _ (some b.mac_address) w
  notify_changed-headlines (d ∷ e ∷ r) w = persist_and_deliver-headlines device_changed _ none w

  -- Where no call of the database fails, `notify` stores for each kind of change, new devices, then
  -- returned ones, then changed ones: nothing where there is none, one notification with the
  -- device's MAC address, in lower case, where there is one, and one with no MAC address for more.
  pub notify-headlines :
      (cs : List DeviceChange) (w : World)
      → headlines (notify env duration_text cs w)
        ≡ headlines w
          ++ (one_or_summary new_device_found (new_ones cs)
              ++ (one_or_summary device_online_after_time (returned_ones cs)
                  ++ one_or_summary device_changed (changed_ones cs)))
  unfolding notify
  notify-headlines cs w =
      let g = group cs in
      let w₁ = notify_new_devices env g.new_devices w in
      let w₂ = notify_back_online env duration_text g.back_online w₁ in
      notify_changed-headlines g.changed w₂
      ∙ ap (λ l. l ++ one_or_summary device_changed (map (λ p. p.1) g.changed))
          (notify_back_online-headlines g.back_online w₁
            ∙ ap (λ l. l ++ one_or_summary device_online_after_time (map (λ p. p.0) g.back_online))
                (notify_new_devices-headlines g.new_devices w))
      ∙ simp (group-new_ones cs, group-returned_ones cs, group-changed_ones cs, append_assoc)
