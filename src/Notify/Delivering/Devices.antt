-- ===== src/Notify/Delivering/Devices.antt =====
-- A round of the delivery loop leaves the devices, and takes at most from the queue.
use oott.Prelude.{ℕ, ◌≤◌, ◌≡◌, refl, ap, List, [], ◌∷◌, length, arith, inl, inr}
use oott.Prelude.Text.{Text}
use oott.Settings.{Push}
use oott.Db.{World, Env, Tables, DeliveryRequest, Result, ok, err, Outcome}
use oott.Notify.Relay.{
  Relay, DeliveryError, Route, to_pushover, pushover_missing, to_relay, only_logged, delivery_route,
  send,
}
use oott.Notify.Relay.Pushing.{IsSent, send-outcome}
use oott.Notify.Delivering.{Delivery, relayed, deliver_by, deliver, receive, receive_from}
use oott.Notify.Delivering.Log.{deliver_by-SameQueue}

pushed_devices :
    (relay : Relay) (config : Push) (title body : Text) (before : Tables)
    (r : Result DeliveryError ℕ × World)
    → Outcome (r.1.tables ≡ before) (IsSent relay config title body before r.1.tables) r.0
    → (relayed r).1.tables.devices ≡ before.devices
pushed_devices relay config title body before (err e, w) h = ap (λ t. t.devices) h
pushed_devices relay config title body before (ok n, w) (inl (no_token, z, h)) =
    ap (λ t. t.devices) h
pushed_devices relay config title body before (ok n, w)
      (inr (ts, rs, some_tokens, stored, a, c, (k, h))) =
    h.devices

pub deliver_by-devices :
    (env : Env) (relay : Relay) (route : Route) (r : DeliveryRequest) (w : World)
    → (deliver_by env relay route r w).1.tables.devices ≡ w.tables.devices
unfolding deliver_by
deliver_by-devices env relay (to_pushover c) r w = refl
deliver_by-devices env relay pushover_missing r w = refl
deliver_by-devices env relay only_logged r w = refl
deliver_by-devices env relay (to_relay c) r w =
    pushed_devices relay c r.title r.body w.tables (send env relay c r.title r.body w)
      (send-outcome env relay c r.title r.body w)

-- The same devices, and no longer queue.
pub record IsShorter (w w' : World) : Type 0 where
  pub devices : w'.tables.devices ≡ w.tables.devices
  pub queue : length w'.queue ≤ length w.queue

receive_from-IsShorter :
    (env : Env) (relay : Relay) (queue : List DeliveryRequest) (d : Delivery)
    → d.world.queue ≡ queue
    → IsShorter d.world (receive_from env relay queue d).world
unfolding deliver
receive_from-IsShorter env relay [] d e = record { devices = refl; queue = omega arith }
receive_from-IsShorter env relay (r ∷ rest) d e =
    let w = record d.world { queue = rest } in
    let route = delivery_route env in
    let h = deliver_by-SameQueue env relay route r w in
    record { devices = deliver_by-devices env relay route r w; queue = ground (arith, h.queue, e) }

pub receive-IsShorter :
    (env : Env) (relay : Relay) (d : Delivery) → IsShorter d.world (receive env relay d).world
unfolding receive
receive-IsShorter env relay d =
    ground (arith, receive_from-IsShorter env relay d.world.queue d refl)
