-- ===== src/System/Api/Guards.antt =====
-- What a handler of a request must leave as it is, and the parts that the handlers share.
use oott.Prelude.{ℕ, ◌≤◌, Bool, true, false, ◌≡◌, refl, Option, length, arith, if◌then◌else◌}
use oott.Prelude.Text.{Text}
use oott.Db.{
  World, Env, Db, DbError, Result, ok, err, bind_result, ◌>>=◌, ◌>>◌, execute, get_db_connection,
  utc_now, pure,
}
use oott.Db.Devices as Store
use oott.Db.Devices.Keys.{
  HasUniqueMacs, DeviceCall, registers, unregisters, updates, deletes, run_call, call-HasUniqueMacs,
}
use oott.Db.Devices.Listing.{get_summary, summary_count}
use oott.Web.Notifications as Notifications
use oott.Notify.Relay.{DeliveryError}
use oott.Notify.Delivering.{relayed}
use oott.Web.Http.{Reply}
use oott.Web.Devices.{reply_to, answer_to}

-- Unique MAC addresses stay, and the queue does not grow.
pub record IsGuarded (w w' : World) : Type 0 where
  pub unique : HasUniqueMacs w.tables.devices → HasUniqueMacs w'.tables.devices
  pub queue : length w'.queue ≤ length w.queue

pub untouched :
    (w w' : World) → w'.tables.devices ≡ w.tables.devices → w'.queue ≡ w.queue → IsGuarded w w'
untouched w w' e q = record { unique = λ u. rw e u; queue = ground (arith, q) }

pub IsGuarded-trans : {u v w : World} → IsGuarded u v → IsGuarded v w → IsGuarded u w
IsGuarded-trans h k = record {
  unique = λ u. k.unique (h.unique u);
  queue = omega (arith, h.queue, k.queue);
}

pub reply_to-world :
    {A : Type 0} (reply : Reply) (message : Text) (w : World) (r : Result DbError A × World)
    → IsGuarded w r.1
    → IsGuarded w (reply_to reply message r).1
reply_to-world reply message w (ok a, v) h = h
reply_to-world reply message w (err e, v) h = h

pub answer_to-world :
    {A : Type 0} (w : World) (r : Result DbError A × World)
    → IsGuarded w r.1
    → IsGuarded w (answer_to r).1
answer_to-world w (ok a, v) h = h
answer_to-world w (err e, v) h = h

pub delivered-IsGuarded :
    (w : World) (r : Result DeliveryError ℕ × World)
    → IsGuarded w (relayed r).1
    → IsGuarded w (Notifications.delivered_answer r).1
delivered-IsGuarded w (ok n, v) h = h
delivered-IsGuarded w (err e, v) h = h

call-queue : (env : Env) (c : DeviceCall) (w : World) → (run_call env c w).queue ≡ w.queue
unfolding run_call Store.seen Store.insert Store.update Store.register Store.unregister Store.delete
call-queue env (registers mac owner kind name) w = ground arith
call-queue env (updates mac owner kind vendor name) w = ground arith
call-queue env (unregisters mac) w = ground arith
call-queue env (deletes mac) w = ground arith
call-queue env c w = ground arith

pub call-IsGuarded : (env : Env) (c : DeviceCall) (w : World) → IsGuarded w (run_call env c w)
call-IsGuarded env c w = record {
  unique = call-HasUniqueMacs env c w;
  queue = ground (arith, call-queue env c w);
}

pub same : (w : World) → IsGuarded w w
same w = untouched w w refl refl

pub branch-IsGuarded :
    (b : Bool) (w : World) (p q : Reply × World)
    → IsGuarded w p.1
    → IsGuarded w q.1
    → IsGuarded w (if b then p else q).1
branch-IsGuarded true w p q h k = h
branch-IsGuarded false w p q h k = k

pub read-IsGuarded : (env : Env) (mac : Text) (w : World) → IsGuarded w (Store.read env mac w).1
unfolding Store.read
read-IsGuarded env mac w = untouched w (Store.read env mac w).1 (ground arith) (ground arith)

-- A computation on the database that guards every world.
abbrev Guards : {A : Type 0} → Db A → Type 0
Guards m = (w : World) → IsGuarded w (m w).1

bound-IsGuarded :
    {A B : Type 0} (f : A → Db B) (r : Result DbError A × World) (w : World)
    → IsGuarded w r.1
    → ((a : A) → Guards (f a))
    → IsGuarded w (bind_result f r).1
bound-IsGuarded f (ok a, v) w h k = IsGuarded-trans h (k a v)
bound-IsGuarded f (err e, v) w h k = h

bind-Guards :
    {A B : Type 0} (m : Db A) (f : A → Db B)
    → Guards m
    → ((a : A) → Guards (f a))
    → Guards (m >>= f)
bind-Guards m f h k w = bound-IsGuarded f (m w) w (h w) k

then-Guards : {B : Type 0} (m : Db (Unit {0})) (n : Db B) → Guards m → Guards n → Guards (m >> n)
then-Guards m n h k w = bound-IsGuarded (λ _. n) (m w) w (h w) (λ _. k)

pure-Guards : {A : Type 0} (a : A) → Guards (pure a)
pure-Guards a w = same w

utc_now-Guards : (env : Env) → Guards (utc_now env)
unfolding utc_now
utc_now-Guards env w = untouched w (utc_now env w).1 refl refl

summary_count-Guards :
    (env : Env) (since : Option ℕ) (b : Bool) → Guards (summary_count env since b)
unfolding execute
summary_count-Guards env since b w =
    untouched w (summary_count env since b w).1 (ground arith) (ground arith)

get_db_connection-Guards : (env : Env) → Guards (get_db_connection env)
unfolding get_db_connection
get_db_connection-Guards env w =
    untouched w (get_db_connection env w).1 (ground arith) (ground arith)

pub get_summary-Guards : (env : Env) → Guards (get_summary env)
unfolding get_summary
get_summary-Guards env =
    search
      (
        then-Guards, bind-Guards, summary_count-Guards, get_db_connection-Guards, utc_now-Guards,
        pure-Guards,
      )
      depth 20 fits 5000
