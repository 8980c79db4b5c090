-- ===== src/Scanners/Polling/Showing.antt =====
-- What the status of a polling scanner says after the rounds of its loop (scanner.rs of
-- backend/src/scanners/arp and snmp).
use oott.Prelude.{
  ℕ, true, false, ◌≡◌, refl, sym, ◌⊎◌, inl, inr, none, some, is_some, Option-cases, ◌+◌, List, [],
  ◌∷◌,
}
use mathlib.Core.Path.{subst}
use oott.Prelude.Text.{Text}
use oott.Model.Device.{Device}
use oott.Model.DeviceEvent.{DeviceEventScanner}
use oott.Db.{Env, now, read_clock}
use oott.Scanners.ActiveStatus.{StatusCell}
use oott.Scanners.Polling.{
  Poller, set_running, record_scan, set_waiting, process_devices, RoundEnd, sleeps, panics, fails,
  await_next, TaskEnd, still_runs, returned, panicked, failed, Round, cancelled_probe, answer,
  answer_then_cancelled, after_round, poll_loop,
}

-- A scan runs since a known time, and no next one is announced.
abbrev pub IsScanning : StatusCell → Type 0
IsScanning none = ⊥
IsScanning (some s) =
    (s.is_running ≡ true) × (s.next_scan_at ≡ none) × (t : ℕ) × (s.scan_started_at ≡ some t)

-- No scan runs, and the next one is announced.
abbrev pub IsWaiting : StatusCell → Type 0
IsWaiting none = ⊥
IsWaiting (some s) =
    (s.is_running ≡ false) × (s.scan_started_at ≡ none) × (t : ℕ) × (s.next_scan_at ≡ some t)

set_running-IsScanning :
    (env : Env) (p : Poller) → is_some p.status ≡ true → IsScanning (set_running env p).status
unfolding set_running
set_running-IsScanning env p h = elim (Option-cases p.status) [
  | inl e ↦ absurd (cc)
  | inr (s, e) ↦ rw e (refl, refl, now env p.world, refl)
]

IsScanning-some : (cell : StatusCell) → IsScanning cell → is_some cell ≡ true
IsScanning-some none h = absurd h
IsScanning-some (some s) h = refl

IsWaiting-some : (cell : StatusCell) → IsWaiting cell → is_some cell ≡ true
IsWaiting-some none h = absurd h
IsWaiting-some (some s) h = refl

record_scan-IsScanning :
    (env : Env) (ds : List Device) (p : Poller)
    → IsScanning p.status
    → IsScanning (record_scan env ds p).status
unfolding record_scan
record_scan-IsScanning env ds p h = elim (Option-cases p.status) [
  | inl e ↦ absurd (rw e at h)
  | inr (s, e) ↦ let k = subst IsScanning e h in rw e k
]

set_waiting-IsWaiting :
    (at : ℕ) (p : Poller) → IsScanning p.status → IsWaiting (set_waiting at p).status
unfolding set_waiting
set_waiting-IsWaiting at p h = elim (Option-cases p.status) [
  | inl e ↦ absurd (rw e at h)
  | inr (s, e) ↦ rw e (refl, refl, at, refl)
]

-- What the status says at the end of a round.
abbrev pub EndShows : {E : Type 0} → RoundEnd E × Poller → Type 0
EndShows (sleeps, p) = IsWaiting p.status
EndShows (panics, p) = IsScanning p.status
EndShows (fails e, p) = IsScanning p.status

module _ (E : Type 0) (env : Env) (wait : ℕ) (p : Poller) where
  await_next_panics :
      env.from_std wait ≡ none
      → await_next {E = E} env wait p ≡ (panics, record p { world = read_clock p.world })
  unfolding await_next
  await_next_panics e = rw (e, await_next)

  await_next_sleeps :
      (d : ℕ)
      → env.from_std wait ≡ some d
      → await_next {E = E} env wait p
        ≡ (sleeps, set_waiting (now env p.world + d) (record p { world = read_clock p.world }))
  unfolding await_next
  await_next_sleeps d e = rw (e, await_next)

  pub await_next-EndShows : IsScanning p.status → EndShows (await_next {E = E} env wait p)
  await_next-EndShows h = elim (Option-cases (env.from_std wait)) [
    | inl e ↦ subst (EndShows {E = E}) (sym (await_next_panics e)) h
    | inr (d, e) ↦
        subst (EndShows {E = E}) (sym (await_next_sleeps d e))
          (set_waiting-IsWaiting _ (record p { world = read_clock p.world }) h)
  ]

pub process_devices-IsScanning :
    (env : Env) (duration_text : ℕ → Text) (s : DeviceEventScanner) (ds : List Device) (p : Poller)
    → IsScanning p.status
    → IsScanning (process_devices env duration_text s ds p).status
unfolding process_devices
process_devices-IsScanning env duration_text s ds p h = record_scan-IsScanning env ds p h

-- What the status says where the task ended so: an error and a panic leave it at the scan.
abbrev pub TaskShows : {E : Type 0} → TaskEnd E → StatusCell → Type 0
TaskShows still_runs cell = IsWaiting cell
TaskShows returned cell = IsWaiting cell ⊎ IsScanning cell
TaskShows panicked cell = IsScanning cell
TaskShows (failed e) cell = IsScanning cell

module _ {A E : Type 0} (env : Env) (poll : A → Poller → RoundEnd E × Poller)
    (shows : (a : A) (p : Poller) → IsScanning p.status → EndShows (poll a p)) where
  after_returned :
      (r : RoundEnd E × Poller)
      → EndShows r
      → let t = after_round (returned, r.1) r in TaskShows t.0 t.1.status
  after_returned (sleeps, p) h = inl h
  after_returned (panics, p) h = h
  after_returned (fails e, p) h = h

  after_poll :
      (r : RoundEnd E × Poller) (next : TaskEnd E × Poller)
      → EndShows r
      → (IsWaiting r.1.status → TaskShows next.0 next.1.status)
      → let t = after_round next r in TaskShows t.0 t.1.status
  after_poll (sleeps, p) next h f = f h
  after_poll (panics, p) next h f = h
  after_poll (fails e, p) next h f = h

  further :
      (rounds : List (Round A)) (p : Poller)
      → IsWaiting p.status
      → let t = poll_loop env poll rounds p in TaskShows t.0 t.1.status
  unfolding poll_loop
  further [] p h = h
  further (cancelled_probe ∷ rounds) p h = inr (set_running-IsScanning env p (IsWaiting-some _ h))
  further (answer_then_cancelled a ∷ rounds) p h =
      after_returned (poll a (set_running env p))
        (shows a _ (set_running-IsScanning env p (IsWaiting-some _ h)))
  further (answer a ∷ rounds) p h =
      let r = poll a (set_running env p) in
      after_poll r (poll_loop env poll rounds r.1)
        (shows a _ (set_running-IsScanning env p (IsWaiting-some _ h))) (λ k. further rounds r.1 k)

  -- From a status that is initialised, and at least one round.
  pub poll_loop-TaskShows :
      (first : Round A) (rounds : List (Round A)) (p : Poller)
      → is_some p.status ≡ true
      → let t = poll_loop env poll (first ∷ rounds) p in TaskShows t.0 t.1.status
  unfolding poll_loop
  poll_loop-TaskShows cancelled_probe rounds p h = inr (set_running-IsScanning env p h)
  poll_loop-TaskShows (answer_then_cancelled a) rounds p h =
      after_returned (poll a (set_running env p)) (shows a _ (set_running-IsScanning env p h))
  poll_loop-TaskShows (answer a) rounds p h =
      let r = poll a (set_running env p) in
      after_poll r (poll_loop env poll rounds r.1) (shows a _ (set_running-IsScanning env p h))
        (λ k. further rounds r.1 k)
