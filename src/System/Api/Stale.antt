-- ===== src/System/Api/Stale.antt =====
-- The status of a scanner whose task has ended.
use oott.Prelude.{
  ℕ, Bool, true, false, ◌≡◌, refl, sym, ◌∙◌, Option, none, some, is_some, List, [], ◌∷◌, any, arith,
  if◌then◌else◌, ◌++◌,
}
use oott.Prelude.Text.{Text, bytes, text_eq}
use mathlib.Core.Path.{subst}
use oott.Db.{World, Env, now}
use oott.Notify.Relay.{Relay}
use oott.Web.Http.{json, failed, unauthorized, internal_server_error}
use oott.Web.Auth.{auth}
use oott.Web.ScannerStatus.{ActiveScannerStatusResponse, active_status, num_milliseconds}
use oott.Scanners.ActiveStatus.{StatusCell}
use oott.Scanners.Listening.{Outside}
use oott.Scanners.Polling.{Poller, Round, TaskEnd, TaskEnd}
use oott.Scanners.Polling as Polling
use oott.Scanners.Polling.Showing.{IsScanning, TaskShows}
use oott.Scanners.Polling.Scans.{arp_scan-TaskShows}
use oott.Scanners.Arp as Arp
use oott.System.{System, Activity, arp_scans, act}
use oott.System.Api.{
  admitted, round, request, Endpoint, arp_status, serve, respond, Event, happen, live,
}

-- A round of the ARP scanner.
abbrev pub is_arp_round : {Oid : Type 0} → Event Oid → Bool
is_arp_round (round (arp_scans a)) = true
is_arp_round (round _) = false
is_arp_round (request header e) = false

respond-arp :
    (env : Env) (relay : Relay) (e : Endpoint) (s : System) → (respond env relay e s).arp ≡ s.arp
unfolding respond active_status
respond-arp env relay arp_status s = ground arith
respond-arp env relay _ s = ground arith

admitted-arp :
    (refuses passes : Bool) (s s' : System)
    → s'.arp ≡ s.arp
    → (admitted
        (if refuses
          then failed internal_server_error
          else if passes
          then json s'
          else failed unauthorized)
        s).arp
      ≡ s.arp
admitted-arp true p s s' e = refl
admitted-arp false true s s' e = e
admitted-arp false false s s' e = refl

module _ (env : Env) (relay : Relay) where
  serve-arp :
      (header : Option Text) (e : Endpoint) (s : System) → (serve env relay header e s).arp ≡ s.arp
  unfolding serve auth
  serve-arp none e s = refl
  serve-arp (some header) e s =
      admitted-arp (text_eq env.settings.web_server.api_key (bytes "CHANGE_ME"))
        (text_eq header (bytes "Bearer " ++ env.settings.web_server.api_key)) s
        (respond env relay e s) (respond-arp env relay e s)

module _ {Oid : Type 0} (o : Outside) (relative_to : Oid → Option (List ℕ)) (relay : Relay) where
  act-arp :
      (a : Activity Oid) (s : System)
      → is_arp_round (round a) ≡ false
      → (act o relative_to relay a s).arp ≡ s.arp
  unfolding act
  act-arp (arp_scans a) s h = absurd (cc)
  act-arp _ s h = refl

  happen-arp :
      (e : Event Oid) (s : System)
      → is_arp_round e ≡ false
      → (happen o relative_to relay e s).arp ≡ s.arp
  unfolding happen
  happen-arp (round a) s h = act-arp a s h
  happen-arp (request header e) s h = serve-arp o.env relay header e s

  live-arp :
      (events : List (Event Oid)) (s : System)
      → any is_arp_round events ≡ false
      → (live o relative_to relay events s).arp ≡ s.arp
  unfolding live
  live-arp [] s h = refl
  live-arp (e ∷ events) s h =
      live-arp events (happen o relative_to relay e s) (ground arith)
      ∙ happen-arp e s (ground arith)

abbrev pub started_at : StatusCell → Option ℕ
started_at none = none
started_at (some s) = s.scan_started_at

-- The status endpoint answers that a scan runs since then, and announces none.
abbrev pub AnswersRunning : Env → ℕ → Poller → Type 0
AnswersRunning env since p =
    (r : ActiveScannerStatusResponse) × ((active_status env p).0 ≡ json r)
    × (r.is_running ≡ true)
    × (r.running_for ≡ some (num_milliseconds since (now env p.world)))
    × (r.next_run_in ≡ none)

scanning-AnswersRunning :
    (env : Env) (w : World) (cell : StatusCell)
    → IsScanning cell
    → (since : ℕ) × (started_at cell ≡ some since)
      × AnswersRunning env since (record { world = w; status = cell })
unfolding active_status
scanning-AnswersRunning env w none h = absurd h
scanning-AnswersRunning env w (some s) (running, next, since, started) =
    (since, started, (_, refl, running, rw running (rw started), rw running))

module _ {Oid : Type 0} (o : Outside) (relative_to : Oid → Option (List ℕ)) (relay : Relay) where
  -- After an ARP scanner that was enabled, whose status was initialised and that ran at least one
  -- round ended with an error, whatever the other tasks and the requests do, with whatever faults
  -- and answers, the status endpoint still answers that a scan runs, counts the time since its
  -- start, and announces no next one.
  pub stale_scan :
      (first : Round Arp.ArpAnswer) (rounds : List (Round Arp.ArpAnswer)) (p : Poller)
      (e : Arp.ScanError) (events : List (Event Oid)) (s : System)
      → o.env.settings.arp_scanner.enabled ≡ true
      → is_some p.status ≡ true
      → (Arp.scan o (first ∷ rounds) p).0 ≡ Polling.failed e
      → s.arp ≡ (Arp.scan o (first ∷ rounds) p).1.status
      → any is_arp_round events ≡ false
      → let s' = live o relative_to relay events s in
        (since : ℕ) × (started_at s.arp ≡ some since)
        × AnswersRunning o.env since (record { world = s'.world; status = s'.arp })
  stale_scan first rounds p e events s enabled h ends kept none_of =
      let t = Arp.scan o (first ∷ rounds) p in
      let shown : TaskShows t.0 t.1.status = arp_scan-TaskShows o first rounds p enabled h in
      let scanning : IsScanning t.1.status = subst (λ x. TaskShows x t.1.status) ends shown in
      let s' = live o relative_to relay events s in
      rw (live-arp o relative_to relay events s none_of)
        (scanning-AnswersRunning o.env s'.world s.arp (subst IsScanning (sym kept) scanning))
