-- ===== src/Retention.antt =====
-- backend/src/retention.rs: the daily sweep over old records.
pub mod Sweeping
pub mod Rounds
use oott.Prelude.{ℕ, ◌-◌, Bool, true, false, Option, none, some, List, [], ◌∷◌}
use oott.Db.{World, Env, now, read_clock}
use oott.Db.DeviceEvents
use oott.Db.Notifications

-- The two purges of a round; an error of one is logged and does not stop the other.
unfoldable pub purge : Env → ℕ → World → World
unfolding DeviceEvents.purge_older_than Notifications.purge_older_than
purge env cutoff w =
    (Notifications.purge_older_than env cutoff (DeviceEvents.purge_older_than env cutoff w).1).1

abbrev sweep_window : Env → Option ℕ → World → World
sweep_window env none w = w
sweep_window env (some d) w = purge env (now env w - d) (read_clock w)

-- One round of the loop of `run`: a window that cannot be converted purges nothing. The times of
-- records do not precede the epoch, where the subtraction stops.
unfoldable pub sweep : Env → World → World
unfolding purge
sweep env w = sweep_window env (env.from_std env.settings.retention.window) w

-- How the sleep between two rounds ends, in `sleep_unless_shutdown`.
pub data Wake : Type 0 where
  elapsed cancelled : Wake

-- `run`, over the ends of its sleeps: whether the loop has ended, and the world. At the end of the
-- list it sleeps.
unfoldable pub run : Env → List Wake → World → Bool × World
unfolding sweep
run env [] w = (false, sweep env w)
run env (cancelled ∷ wakes) w = (true, sweep env w)
run env (elapsed ∷ wakes) w = run env wakes (sweep env w)
