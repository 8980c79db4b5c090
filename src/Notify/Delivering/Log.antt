-- ===== src/Notify/Delivering/Log.antt =====
-- The queue of delivery as a log: what was ever accepted, in order, and how many of these were
-- taken off.
use oott.Prelude.{
  ℕ, suc, ◌-◌, ◌≤◌, Bool, true, false, ◌&&◌, ◌≡◌, refl, List, [], ◌∷◌, ◌++◌, map, length, take, sym,
  ltb, if◌then◌else◌, arith, length-append, Bool-cases, inl, inr,
}
use mathlib.Core.List.{append_assoc, append-nil, map-append}
use oott.Prelude.Text.{Text}
use oott.Db.{World, Env, Result, DeliveryRequest}
use oott.Notify.Delivery.{enqueue}
use oott.Notify.Relay.{
  Relay, DeliveryError, Route, send, delivery_route, to_relay, to_pushover, pushover_missing,
  only_logged,
}
use oott.Notify.Relay.Queue.{SameQueue, send-SameQueue}
use oott.Notify.Delivering.{
  Delivery, Fate, relayed, DeliveryCall, starts, receives, stops, enqueues, call, run, deliver,
  deliver_by, start, receive, stop, receive_from,
}

-- The log: what was accepted, and the place of the reader.
pub record Log : Type 0 where
  pub is_set : Bool
  pub is_open : Bool
  pub accepted : List DeliveryRequest
  pub taken : ℕ

-- What a call means for the log.
unfoldable pub log_call : DeliveryCall → Log → Log
log_call starts l = if l.is_set then l else record l { is_set = true; is_open = true }
log_call receives l =
    if l.is_open && ltb l.taken (length l.accepted) then record l { taken = suc l.taken } else l
log_call stops l = record l { is_open = false; accepted = take l.taken l.accepted }
log_call (enqueues title body) l =
    if l.is_open && ltb (length l.accepted - l.taken) 100
    then record l { accepted = l.accepted ++ record { title = title; body = body } ∷ [] }
    else l

unfoldable pub replay : List DeliveryCall → Log → Log
unfolding log_call
replay [] l = l
replay (c ∷ cs) l = replay cs (log_call c l)

relayed-SameQueue :
    (r : Result DeliveryError ℕ × World) (w : World) → SameQueue w r.1 → SameQueue w (relayed r).1
relayed-SameQueue (r, v) w h = h

pub deliver_by-SameQueue :
    (env : Env) (relay : Relay) (route : Route) (request : DeliveryRequest) (w : World)
    → SameQueue w (deliver_by env relay route request w).1
unfolding deliver_by
deliver_by-SameQueue env relay (to_pushover c) r w = record { queue = refl; delivery_tx = refl }
deliver_by-SameQueue env relay pushover_missing r w = record { queue = refl; delivery_tx = refl }
deliver_by-SameQueue env relay only_logged r w = record { queue = refl; delivery_tx = refl }
deliver_by-SameQueue env relay (to_relay c) r w =
    relayed-SameQueue (send env relay c r.title r.body w) w
      (send-SameQueue env relay c r.title r.body w)

-- The requests that were delivered, in order.
abbrev pub requests : Delivery → List DeliveryRequest
requests s = map (λ p. p.0) s.delivered

abbrev IsEmptyUnless : Bool → List DeliveryRequest → Type 0
IsEmptyUnless true queue = Unit
IsEmptyUnless false queue = queue ≡ []

abbrev IsOpenOnlyIf : Bool → Bool → Type 0
IsOpenOnlyIf true tx = Unit
IsOpenOnlyIf false tx = tx ≡ false

-- The state of delivery that a log stands for: what was delivered is what was taken off it, what
-- waits is the rest, at most 100 requests, and nothing waits while the loop does not run.
pub record IsLogOf (s : Delivery) (l : Log) : Type 0 where
  pub is_set : l.is_set ≡ s.is_set
  pub is_open : l.is_open ≡ s.world.delivery_tx
  pub accepted : l.accepted ≡ requests s ++ s.world.queue
  pub taken : l.taken ≡ length (requests s)
  pub bounded : length s.world.queue ≤ 100
  pub closed : IsEmptyUnless s.world.delivery_tx s.world.queue
  pub unset : IsOpenOnlyIf s.is_set s.world.delivery_tx

take-length-append : {A : Type 0} (xs ys : List A) → take (length xs) (xs ++ ys) ≡ xs
take-length-append [] ys = refl
take-length-append (x ∷ xs) ys = ground (arith, take-length-append xs ys)

start-IsLogOf : (s : Delivery) (l : Log) → IsLogOf s l → IsLogOf (start s) (log_call starts l)
unfolding start log_call
start-IsLogOf s l h = ground (arith)

IsOpenOnlyIf-closed : (set : Bool) → IsOpenOnlyIf set false
IsOpenOnlyIf-closed true = tt
IsOpenOnlyIf-closed false = refl

stop-IsLogOf : (s : Delivery) (l : Log) → IsLogOf s l → IsLogOf (stop s) (log_call stops l)
unfolding stop log_call
stop-IsLogOf s l h = record {
  is_set = h.is_set;
  is_open = refl;
  accepted =
      rw (h.accepted, h.taken, take-length-append (requests s) s.world.queue)
        (sym (append-nil (requests s)));
  taken = h.taken;
  bounded = omega arith;
  closed = refl;
  unset = IsOpenOnlyIf-closed s.is_set;
}

enqueue-IsLogOf :
    (title body : Text) (s : Delivery) (l : Log)
    → IsLogOf s l
    → IsLogOf (record s { world = enqueue title body s.world }) (log_call (enqueues title body) l)
unfolding enqueue log_call
enqueue-IsLogOf title body s l h = ground (
  arith,
  length-append (requests s) s.world.queue,
  length-append s.world.queue (record { title = title; body = body } ∷ []),
  append_assoc (requests s) s.world.queue (record { title = title; body = body } ∷ []),
)

module _ (env : Env) (relay : Relay) where
  receive_from-IsLogOf :
      (queue : List DeliveryRequest) (s : Delivery) (l : Log)
      → s.world.queue ≡ queue
      → s.world.delivery_tx ≡ true
      → IsLogOf s l
      → IsLogOf (receive_from env relay queue s) (log_call receives l)
  unfolding log_call deliver
  receive_from-IsLogOf [] s l e t h = ground (arith, length-append (requests s) s.world.queue)
  receive_from-IsLogOf (r ∷ rest) s l e t h =
      let w = record s.world { queue = rest } in
      let d = deliver env relay r w in
      ground (
        arith,
        deliver_by-SameQueue env relay (delivery_route env) r w,
        map-append (λ (p : DeliveryRequest × Fate). p.0) s.delivered ((r, d.0) ∷ []),
        append_assoc (requests s) (r ∷ []) rest,
        length-append (requests s) (r ∷ []),
        length-append (requests s) s.world.queue,
      )

  receive-IsLogOf :
      (s : Delivery) (l : Log) → IsLogOf s l → IsLogOf (receive env relay s) (log_call receives l)
  unfolding receive log_call deliver
  receive-IsLogOf s l h = elim (Bool-cases s.world.delivery_tx) [
    | inl e ↦ ground (arith, receive_from-IsLogOf s.world.queue s l refl e h)
    | inr e ↦ ground (arith)
  ]

  call-IsLogOf :
      (c : DeliveryCall) (s : Delivery) (l : Log)
      → IsLogOf s l
      → IsLogOf (call env relay c s) (log_call c l)
  unfolding call
  call-IsLogOf starts s l h = start-IsLogOf s l h
  call-IsLogOf receives s l h = receive-IsLogOf s l h
  call-IsLogOf stops s l h = stop-IsLogOf s l h
  call-IsLogOf (enqueues title body) s l h = enqueue-IsLogOf title body s l h

  -- In whatever order the loop starts, receives and stops and requests come: where the state of
  -- delivery begins as a log says, it goes on as the log does. Requests are delivered in the order
  -- in which they were accepted, each once, never more than 100 wait, one is refused exactly if the
  -- loop does not run or 100 wait, a stop drops those that wait, and a second start does nothing.
  pub run-IsLogOf :
      (cs : List DeliveryCall) (s : Delivery) (l : Log)
      → IsLogOf s l
      → IsLogOf (run env relay cs s) (replay cs l)
  unfolding run replay
  run-IsLogOf [] s l h = h
  run-IsLogOf (c ∷ cs) s l h =
      run-IsLogOf cs (call env relay c s) (log_call c l) (call-IsLogOf c s l h)
