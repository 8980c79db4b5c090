-- ===== src/Notify/Delivering.antt =====
-- backend/src/notifications/delivery.rs: the delivery loop, and the queue as it is used by it and
-- by the scanners.

pub mod Devices
pub mod Log
use oott.Prelude.{ℕ, Bool, true, false, List, [], ◌∷◌, ◌++◌, if◌then◌else◌}
use oott.Prelude.Text.{Text}
use oott.Settings.{Pushover}
use oott.Db.{World, Env, DeliveryRequest, Result}
use oott.Notify.Delivery.{enqueue}
use oott.Notify.Relay.{
  Relay, DeliveryError, send, Route, to_pushover, pushover_missing, to_relay, only_logged,
  delivery_route,
}

-- What became of a request. The answer of Pushover is only logged.
pub data Fate : Type 0 where
  sent_by_pushover : Pushover → Fate
  lost : Fate
  sent_by_relay : Result DeliveryError ℕ → Fate
  logged : Fate

abbrev pub relayed : Result DeliveryError ℕ × World → Fate × World
relayed (r, w) = (sent_by_relay r, w)

unfoldable pub deliver_by : Env → Relay → Route → DeliveryRequest → World → Fate × World
unfolding send
deliver_by env relay (to_pushover config) request w = (sent_by_pushover config, w)
deliver_by env relay pushover_missing request w = (lost, w)
deliver_by env relay (to_relay config) request w =
    relayed (send env relay config request.title request.body w)
deliver_by env relay only_logged request w = (logged, w)

-- `deliver`.
unfoldable pub deliver : Env → Relay → DeliveryRequest → World → Fate × World
unfolding deliver_by delivery_route
deliver env relay request w = deliver_by env relay (delivery_route env) request w

-- The state around the loop: whether `DELIVERY_TX` is set, and what has been delivered so far. The
-- loop runs while `delivery_tx` of the world is true.
pub record Delivery : Type 0 where
  pub world : World
  pub is_set : Bool
  pub delivered : List (DeliveryRequest × Fate)

-- The start of `run_delivery`: the channel is new and empty; a second start is ignored.
unfoldable pub start : Delivery → Delivery
start s =
    if s.is_set
    then s
    else record s { world = record s.world { delivery_tx = true; queue = [] }; is_set = true }

-- A round of the loop that receives: the oldest request is delivered. Without one it waits.
abbrev receive_from : Env → Relay → List DeliveryRequest → Delivery → Delivery
receive_from env relay [] s = s
receive_from env relay (request ∷ queue) s =
    let (fate, w) = deliver env relay request (record s.world { queue = queue }) in
    record s { world = w; delivered = s.delivered ++ (request, fate) ∷ [] }

unfoldable pub receive : Env → Relay → Delivery → Delivery
unfolding deliver
receive env relay s = if s.world.delivery_tx then receive_from env relay s.world.queue s else s

-- A round that meets the shutdown: the loop ends, and the channel and what is in it are dropped.
unfoldable pub stop : Delivery → Delivery
stop s = record s { world = record s.world { delivery_tx = false; queue = [] } }

-- What can happen to the queue, in any order.
pub data DeliveryCall : Type 0 where
  starts receives stops : DeliveryCall
  enqueues : (title body : Text) → DeliveryCall

unfoldable pub call : Env → Relay → DeliveryCall → Delivery → Delivery
unfolding start receive stop enqueue
call env relay starts s = start s
call env relay receives s = receive env relay s
call env relay stops s = stop s
call env relay (enqueues title body) s = record s { world = enqueue title body s.world }

unfoldable pub run : Env → Relay → List DeliveryCall → Delivery → Delivery
unfolding call
run env relay [] s = s
run env relay (c ∷ cs) s = run env relay cs (call env relay c s)
