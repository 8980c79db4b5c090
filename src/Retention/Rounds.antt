-- ===== src/Retention/Rounds.antt =====
-- What the rounds of the retention loop leave.
use oott.Prelude.{
  ℕ, zero, suc, ◌+◌, ◌-◌, ◌≤◌, Bool, true, false, ◌≡◌, refl, sym, ap, ◌∙◌, some, List, [], ◌∷◌,
  keep, any, leb, arith,
}
use mathlib.Core.Path.{subst}
use native.Mathlib.Nat.{add-zero}
use oott.Model.DeviceEvent.{DeviceEvent}
use oott.Model.Notification.{Notification}
use oott.Db.{World, Env, Tables}
use oott.Db.Chronology.{IsChronological}
use oott.Db.DeviceEvents as Events
use oott.Db.Notifications as Notices
use oott.Retention.{purge, sweep, Wake, elapsed, cancelled, run}
use oott.Retention.Sweeping.{
  recent_events, recent_notifications, IsSwept, sweep-IsSwept, sweep_exact,
}

-- The sleeps that elapse before the shutdown.
abbrev pub rounds : List Wake → ℕ
rounds [] = 0
rounds (cancelled ∷ wakes) = 0
rounds (elapsed ∷ wakes) = suc (rounds wakes)

abbrev pub is_cancelled : Wake → Bool
is_cancelled elapsed = false
is_cancelled cancelled = true

keep_later :
    {A : Type 0} (time : A → ℕ) (c d : ℕ) (xs : List A)
    → c ≤ d
    → keep (λ x. leb d (time x)) (keep (λ x. leb c (time x)) xs) ≡ keep (λ x. leb d (time x)) xs
keep_later time c d [] h = refl
keep_later time c d (x ∷ xs) h = ground (arith, keep_later time c d xs h)

events_later :
    (c d : ℕ) (t : Tables)
    → c ≤ d
    → keep (λ e. leb d e.created_on) (recent_events c t) ≡ recent_events d t
events_later c d t h = keep_later (λ e. e.created_on) c d t.device_events h

notices_later :
    (c d : ℕ) (t : Tables)
    → c ≤ d
    → keep (λ n. leb d n.created_on) (recent_notifications c t) ≡ recent_notifications d t
notices_later c d t h = keep_later (λ n. n.created_on) c d t.notifications h

IsSwept-later : (c d : ℕ) {t u : Tables} → c ≤ d → IsSwept c t u → IsSwept d t u
IsSwept-later c d {t} {u} h s = record {
  events =
      sym (events_later c d u h)
      ∙ ap (keep (λ e. leb d e.created_on)) s.events
      ∙ events_later c d t h;
  notices =
      sym (notices_later c d u h)
      ∙ ap (keep (λ n. leb d n.created_on)) s.notices
      ∙ notices_later c d t h;
  devices = s.devices;
  push_tokens = s.push_tokens;
}

IsSwept-trans : {c : ℕ} {t u v : Tables} → IsSwept c t u → IsSwept c u v → IsSwept c t v
IsSwept-trans h k = record {
  events = k.events ∙ h.events;
  notices = k.notices ∙ h.notices;
  devices = k.devices ∙ h.devices;
  push_tokens = k.push_tokens ∙ h.push_tokens;
}

module _ (env : Env) (window : ℕ) (chronological : IsChronological env)
    (converted : env.from_std env.settings.retention.window ≡ some window)
    (ticks : (n : ℕ) → env.clock n ≤ env.clock (suc n)) where
  -- A sweep reads the clock once.
  sweep_reads : (w : World) → (sweep env w).clock_reads ≡ suc w.clock_reads
  unfolding sweep purge Events.purge_older_than Notices.purge_older_than
  sweep_reads w = rw (converted, sweep) (ground arith)

  clock_later : (k n : ℕ) → env.clock n ≤ env.clock (n + k)
  clock_later zero n = rw add-zero (omega arith)
  clock_later (suc k) n =
      let h = clock_later k (suc n) in
      let e : suc n + k ≡ n + suc k = omega arith in
      let later = subst (λ m. env.clock (suc n) ≤ env.clock m) e h in omega (arith, ticks n, later)

  -- The cutoff of a sweep at the n-th reading of the clock.
  abbrev cutoff_at : ℕ → ℕ
  cutoff_at n = env.clock n - window

  cutoff_later : (k n : ℕ) → cutoff_at n ≤ cutoff_at (n + k)
  cutoff_later k n = omega (arith, clock_later k n)

  swept :
      (wakes : List Wake) (w : World)
      → IsSwept (cutoff_at (w.clock_reads + rounds wakes)) w.tables (run env wakes w).1.tables
  unfolding run
  swept [] w = rw add-zero (sweep-IsSwept env window w chronological converted)
  swept (cancelled ∷ wakes) w = rw add-zero (sweep-IsSwept env window w chronological converted)
  swept (elapsed ∷ wakes) w =
      let e : (sweep env w).clock_reads + rounds wakes ≡ w.clock_reads + suc (rounds wakes) =
        omega (arith, sweep_reads w) in
      let rest =
        subst
          (λ n. IsSwept (cutoff_at n) (sweep env w).tables (run env wakes (sweep env w)).1.tables) e
          (swept wakes (sweep env w)) in
      IsSwept-trans
        (IsSwept-later (cutoff_at w.clock_reads) (cutoff_at (w.clock_reads + suc (rounds wakes)))
          (cutoff_later (suc (rounds wakes)) w.clock_reads)
          (sweep-IsSwept env window w chronological converted))
        rest

  ended : (wakes : List Wake) (w : World) → (run env wakes w).0 ≡ any is_cancelled wakes
  unfolding run
  ended [] w = refl
  ended (cancelled ∷ wakes) w = refl
  ended (elapsed ∷ wakes) w = ended wakes (sweep env w)

  module _ (sound : (n : ℕ) → env.db_fails n ≡ false) where
    -- The tables hold exactly the records of the window.
    abbrev Holds : ℕ → Tables → Tables → Type 0
    Holds cutoff before after =
        (after.device_events ≡ recent_events cutoff before)
        × (after.notifications ≡ recent_notifications cutoff before)

    exact :
        (wakes : List Wake) (w : World)
        → Holds (cutoff_at (w.clock_reads + rounds wakes)) w.tables (run env wakes w).1.tables
    unfolding run
    exact [] w = rw add-zero (sweep_exact env window w chronological converted sound)
    exact (cancelled ∷ wakes) w =
        rw add-zero (sweep_exact env window w chronological converted sound)
    exact (elapsed ∷ wakes) w =
        let e : (sweep env w).clock_reads + rounds wakes ≡ w.clock_reads + suc (rounds wakes) =
          omega (arith, sweep_reads w) in
        let (events, notices) =
          subst
            (λ n. Holds (cutoff_at n) (sweep env w).tables (run env wakes (sweep env w)).1.tables) e
            (exact wakes (sweep env w)) in
        let first = sweep_exact env window w chronological converted sound in
        let n = w.clock_reads in
        let le = cutoff_later (suc (rounds wakes)) n in
        (
          events
              ∙ ap
                  (keep
                    (λ (x : DeviceEvent). leb (cutoff_at (n + suc (rounds wakes))) x.created_on))
                  first.0
              ∙ events_later (cutoff_at n) (cutoff_at (n + suc (rounds wakes))) w.tables le,
          notices
              ∙ ap
                  (keep
                    (λ (x : Notification). leb (cutoff_at (n + suc (rounds wakes))) x.created_on))
                  first.1
              ∙ notices_later (cutoff_at n) (cutoff_at (n + suc (rounds wakes))) w.tables le,
        )

-- Whatever fails, where the clock does not go back and the texts of times sort as the times do: the
-- loop, which sweeps once at its start and again after each sleep that elapses, ends exactly if the
-- shutdown comes, and up to then deletes no event and no notification of the retention window of
-- its last sweep, and changes no device and no token.
pub run-IsSwept :
    (env : Env) (window : ℕ) (wakes : List Wake) (w : World)
    → IsChronological env
    → env.from_std env.settings.retention.window ≡ some window
    → ((n : ℕ) → env.clock n ≤ env.clock (suc n))
    → let cutoff = env.clock (w.clock_reads + rounds wakes) - window in
      IsSwept cutoff w.tables (run env wakes w).1.tables
      × ((run env wakes w).0 ≡ any is_cancelled wakes)
run-IsSwept env window wakes w chronological converted ticks = (
  swept env window chronological converted ticks wakes w,
  ended env window chronological converted ticks wakes w,
)

-- Where besides no call of the database fails, the events and the notifications that the loop leaves
-- are exactly those of the retention window of its last sweep, in their order.
pub retention_exact :
    (env : Env) (window : ℕ) (wakes : List Wake) (w : World)
    → IsChronological env
    → env.from_std env.settings.retention.window ≡ some window
    → ((n : ℕ) → env.clock n ≤ env.clock (suc n))
    → ((n : ℕ) → env.db_fails n ≡ false)
    → let cutoff = env.clock (w.clock_reads + rounds wakes) - window in
      let t = (run env wakes w).1.tables in
      (t.device_events ≡ recent_events cutoff w.tables)
      × (t.notifications ≡ recent_notifications cutoff w.tables)
retention_exact env window wakes w chronological converted ticks sound =
    exact env window chronological converted ticks sound wakes w
