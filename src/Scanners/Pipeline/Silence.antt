-- ===== src/Scanners/Pipeline/Silence.antt =====
-- A sighting notifies nobody, and keeps the devices apart.
use oott.Prelude.{◌≡◌, refl, ◌∙◌, Option, none, some, arith}
use oott.Prelude.Text.{Text}
use oott.Model.Device.{Device}
use oott.Model.DeviceEvent.{DeviceEventScanner}
use oott.Db.{World, Env, Result, ok, err, DbError}
use oott.Db.Devices.{read, seen, insert}
use oott.Db.Devices.Keys.{HasUniqueMacs, inserts, sees, run_call, call-HasUniqueMacs}
use oott.Events.Tables.{SameBut, record_known_device-SameBut, record_new_device-SameBut}
use oott.Scanners.Pipeline.{record_sighting, after_read, after_seen, after_insert, reconcile}

-- What a sighting does to a world: the notifications, the tokens and the queue stay, and the MAC
-- addresses stay different.
pub record IsSilent (w w' : World) : Type 0 where
  pub notifications : w'.tables.notifications ≡ w.tables.notifications
  pub push_tokens : w'.tables.push_tokens ≡ w.tables.push_tokens
  pub queue : w'.queue ≡ w.queue
  pub delivery_tx : w'.delivery_tx ≡ w.delivery_tx
  pub unique : HasUniqueMacs w.tables.devices → HasUniqueMacs w'.tables.devices

pub IsSilent-refl : (w : World) → IsSilent w w
IsSilent-refl w = record {
  notifications = refl;
  push_tokens = refl;
  queue = refl;
  delivery_tx = refl;
  unique = λ u. u;
}

pub IsSilent-trans : {u v w : World} → IsSilent u v → IsSilent v w → IsSilent u w
IsSilent-trans h k = record {
  notifications = k.notifications ∙ h.notifications;
  push_tokens = k.push_tokens ∙ h.push_tokens;
  queue = k.queue ∙ h.queue;
  delivery_tx = k.delivery_tx ∙ h.delivery_tx;
  unique = λ u. k.unique (h.unique u);
}

SameBut-IsSilent : {w w' : World} → SameBut w w' → IsSilent w w'
SameBut-IsSilent h = record {
  notifications = h.notifications;
  push_tokens = h.push_tokens;
  queue = h.queue;
  delivery_tx = h.delivery_tx;
  unique = λ u. rw h.devices u;
}

read-SameBut : (env : Env) (mac : Text) (w : World) → SameBut w (read env mac w).1
unfolding read
read-SameBut env mac w = ground arith

seen-IsSilent :
    (env : Env) (mac ip vendor kind : Text) (name : Option Text) (w : World)
    → IsSilent w (seen env mac ip vendor kind name w).1
unfolding seen run_call
seen-IsSilent env mac ip vendor kind name w = record {
  notifications = ground arith;
  push_tokens = ground arith;
  queue = ground arith;
  delivery_tx = ground arith;
  unique = λ u. call-HasUniqueMacs env (sees mac ip vendor kind name) w u;
}

insert-IsSilent : (env : Env) (d : Device) (w : World) → IsSilent w (insert env d w).1
unfolding insert run_call
insert-IsSilent env d w = record {
  notifications = ground arith;
  push_tokens = ground arith;
  queue = ground arith;
  delivery_tx = ground arith;
  unique = λ u. call-HasUniqueMacs env (inserts d) w u;
}

after_seen-IsSilent :
    (env : Env) (a d : Device) (s : DeviceEventScanner) (r : Result DbError (Unit {0}) × World)
    → IsSilent r.1 (after_seen env a d s r).1
unfolding after_seen
after_seen-IsSilent env a d s (err e, w) = SameBut-IsSilent (ground arith)
after_seen-IsSilent env a d s (ok u, w) = SameBut-IsSilent (record_known_device-SameBut env a d s w)

after_insert-IsSilent :
    (env : Env) (d : Device) (s : DeviceEventScanner) (r : Result DbError (Unit {0}) × World)
    → IsSilent r.1 (after_insert env d s r).1
unfolding after_insert
after_insert-IsSilent env d s (err e, w) = SameBut-IsSilent (ground arith)
after_insert-IsSilent env d s (ok u, w) = SameBut-IsSilent (record_new_device-SameBut env d s w)

after_read-IsSilent :
    (env : Env) (d : Device) (s : DeviceEventScanner) (r : Option Device × World)
    → IsSilent r.1 (after_read env d s r).1
unfolding after_read
after_read-IsSilent env d s (none, w) =
    IsSilent-trans (insert-IsSilent env d w) (after_insert-IsSilent env d s (insert env d w))
after_read-IsSilent env d s (some a, w) =
    let e = reconcile a d in
    let r = seen env e.mac_address e.ipv4_address e.vendor e.device_type e.name w in
    IsSilent-trans (seen-IsSilent env e.mac_address e.ipv4_address e.vendor e.device_type e.name w)
      (after_seen-IsSilent env a e s r)

pub record_sighting-IsSilent :
    (env : Env) (d : Device) (s : DeviceEventScanner) (w : World)
    → IsSilent w (record_sighting env d s w).1
unfolding record_sighting
record_sighting-IsSilent env d s w =
    IsSilent-trans (SameBut-IsSilent (read-SameBut env d.mac_address w))
      (after_read-IsSilent env d s (read env d.mac_address w))
