-- ===== src/Retention/Sweeping.antt =====
-- What a sweep deletes, and what it never deletes.
use oott.Prelude.{ℕ, suc, ◌-◌, false, not, ◌≡◌, refl, some, List, [], ◌∷◌, keep, leb, arith}
use oott.Model.DeviceEvent.{DeviceEvent}
use oott.Model.Notification.{Notification}
use oott.Db.{World, Env, Tables, now, read_clock}
use oott.Db.Chronology.{IsChronological}
use oott.Db.DeviceEvents.{older_than}
use oott.Db.DeviceEvents as Events
use oott.Db.Notifications as Notices
use oott.Retention.{purge, sweep}

-- The rows that are not older than the cutoff, and the tables of these.
abbrev pub recent_events : ℕ → Tables → List DeviceEvent
recent_events cutoff t = keep (λ e. leb cutoff e.created_on) t.device_events

abbrev pub recent_notifications : ℕ → Tables → List Notification
recent_notifications cutoff t = keep (λ n. leb cutoff n.created_on) t.notifications

-- What a round may do to the tables, whatever fails.
pub record IsSwept (cutoff : ℕ) (before after : Tables) : Type 0 where
  pub events : recent_events cutoff after ≡ recent_events cutoff before
  pub notices : recent_notifications cutoff after ≡ recent_notifications cutoff before
  pub devices : after.devices ≡ before.devices
  pub push_tokens : after.push_tokens ≡ before.push_tokens

module _ (env : Env) (chronological : IsChronological env) (cutoff : ℕ) where
  recent_kept :
      {A : Type 0} (time : A → ℕ) (xs : List A)
      → keep (λ x. leb cutoff (time x)) (keep (λ x. not (older_than env cutoff (time x))) xs)
        ≡ keep (λ x. leb cutoff (time x)) xs
  recent_kept time [] = refl
  recent_kept time (x ∷ xs) =
      ground (arith, chronological.bound_order cutoff (time x), recent_kept time xs)

  not_older :
      {A : Type 0} (time : A → ℕ) (xs : List A)
      → keep (λ x. not (older_than env cutoff (time x))) xs ≡ keep (λ x. leb cutoff (time x)) xs
  not_older time [] = refl
  not_older time (x ∷ xs) =
      ground (arith, chronological.bound_order cutoff (time x), not_older time xs)

  purge-IsSwept : (w : World) → IsSwept cutoff w.tables (purge env cutoff w).tables
  unfolding purge Events.purge_older_than Notices.purge_older_than
  purge-IsSwept w =
      let events = recent_kept (λ (e : DeviceEvent). e.created_on) w.tables.device_events in
      let notices = recent_kept (λ (n : Notification). n.created_on) w.tables.notifications in
      record {
        events = ground (arith, events);
        notices = ground (arith, notices);
        devices = ground arith;
        push_tokens = ground arith;
      }

  -- Where no call of the database fails.
  purge-exact :
      (w : World)
      → ((n : ℕ) → env.db_fails n ≡ false)
      → ((purge env cutoff w).tables.device_events ≡ recent_events cutoff w.tables)
        × ((purge env cutoff w).tables.notifications ≡ recent_notifications cutoff w.tables)
  unfolding purge Events.purge_older_than Notices.purge_older_than
  purge-exact w sound = ground (
    arith,
    sound w.db_calls,
    sound (suc w.db_calls),
    sound (suc (suc w.db_calls)),
    sound (suc (suc (suc w.db_calls))),
    not_older (λ (e : DeviceEvent). e.created_on) w.tables.device_events,
    not_older (λ (n : Notification). n.created_on) w.tables.notifications,
  )

-- Whatever fails, a sweep deletes no event and no notification of the retention window and changes
-- no device and no token; where the texts of times sort as the times do.
pub sweep-IsSwept :
    (env : Env) (window : ℕ) (w : World)
    → IsChronological env
    → env.from_std env.settings.retention.window ≡ some window
    → IsSwept (now env w - window) w.tables (sweep env w).tables
unfolding sweep
sweep-IsSwept env window w chronological h =
    rw h (purge-IsSwept env chronological (now env w - window) (read_clock w))

-- Where no call of the database fails and the texts of times sort as the times do, a sweep leaves
-- of the events and of the notifications exactly those of the retention window, in their order.
pub sweep_exact :
    (env : Env) (window : ℕ) (w : World)
    → IsChronological env
    → env.from_std env.settings.retention.window ≡ some window
    → ((n : ℕ) → env.db_fails n ≡ false)
    → ((sweep env w).tables.device_events ≡ recent_events (now env w - window) w.tables)
      × ((sweep env w).tables.notifications ≡ recent_notifications (now env w - window) w.tables)
unfolding sweep
sweep_exact env window w chronological h sound =
    rw h (purge-exact env chronological (now env w - window) (read_clock w) sound)
