-- ===== src/System/Api/Invariants.antt =====
-- What holds in the running program, requests included.
use oott.Prelude.{
  ℕ, ◌≤◌, Bool, true, false, ◌≡◌, refl, Option, none, some, List, [], ◌∷◌, length, Bool-cases, inl,
  inr, ◌∙◌, ap, sym, arith, keep, ◌++◌, if◌then◌else◌,
}
use oott.Prelude.Text.{Text, bytes, text_eq}
use oott.Settings.{Settings}
use oott.Db.{Env}
use oott.Db.Devices.Keys.{HasUniqueMacs}
use oott.Notify.Relay.{Relay}
use oott.Web.Http.{json, failed, unauthorized, internal_server_error}
use oott.Web.Auth.{auth}
use oott.Scanners.Listening.{Outside}
use oott.System.{System}
use oott.System.Watch.{act-IsWatched}
use oott.System.Api.{admitted, round, request, Endpoint, serve, respond, Event, happen, live}
use oott.System.Api.Handlers.{respond-IsGuarded}
use oott.System.Api.Guards.{IsGuarded, same}

-- Whether an event is a round of a task, or a request with the header that the key wants.
abbrev passes_key : Text → Text → Bool
passes_key key header =
    if text_eq key (bytes "CHANGE_ME") then false else text_eq header (bytes "Bearer " ++ key)

abbrev pub is_admitted : {Oid : Type 0} → Settings → Event Oid → Bool
is_admitted settings (round a) = true
is_admitted settings (request none e) = false
is_admitted settings (request (some header) e) = passes_key settings.web_server.api_key header

admitted-IsGuarded :
    (refuses passes : Bool) (s s' : System)
    → IsGuarded s.world s'.world
    → IsGuarded s.world
        (admitted
          (if refuses
            then failed internal_server_error
            else if passes
            then json s'
            else failed unauthorized)
          s).world
admitted-IsGuarded true p s s' h = same s.world
admitted-IsGuarded false true s s' h = h
admitted-IsGuarded false false s s' h = same s.world

module _ (env : Env) (relay : Relay) where
  serve-IsGuarded :
      (header : Option Text) (e : Endpoint) (s : System)
      → IsGuarded s.world (serve env relay header e s).world
  unfolding serve auth
  serve-IsGuarded none e s = same s.world
  serve-IsGuarded (some header) e s =
      admitted-IsGuarded (text_eq env.settings.web_server.api_key (bytes "CHANGE_ME"))
        (text_eq header (bytes "Bearer " ++ env.settings.web_server.api_key)) s
        (respond env relay e s) (respond-IsGuarded env relay e s)

module _ {Oid : Type 0} (o : Outside) (relative_to : Oid → Option (List ℕ)) (relay : Relay) where
  -- What holds of the tables and of the queue at any time.
  abbrev HasKeys : System → Type 0
  HasKeys s = HasUniqueMacs s.world.tables.devices × (length s.world.queue ≤ 100)

  happen-HasKeys :
      (e : Event Oid) (s : System) → HasKeys s → HasKeys (happen o relative_to relay e s)
  unfolding happen
  happen-HasKeys (round a) s (u, b) =
      let h = act-IsWatched o relative_to relay a s in (h.unique u, h.bounded b)
  happen-HasKeys (request header e) s (u, b) =
      let h = serve-IsGuarded o.env relay header e s in (h.unique u, omega (arith, h.queue, b))

  live-HasKeys :
      (events : List (Event Oid)) (s : System)
      → HasKeys s
      → HasKeys (live o relative_to relay events s)
  unfolding live
  live-HasKeys [] s h = h
  live-HasKeys (e ∷ events) s h =
      live-HasKeys events (happen o relative_to relay e s) (happen-HasKeys e s h)

  refused :
      (e : Event Oid) (s : System)
      → is_admitted o.env.settings e ≡ false
      → happen o relative_to relay e s ≡ s
  unfolding happen serve auth
  refused (round a) s h = ground arith
  refused (request none e) s h = refl
  refused (request (some header) e) s h = ground arith

  live-admitted :
      (events : List (Event Oid)) (s : System)
      → live o relative_to relay (keep (is_admitted o.env.settings) events) s
        ≡ live o relative_to relay events s
  unfolding live
  live-admitted [] s = refl
  live-admitted (e ∷ events) s = elim (Bool-cases (is_admitted o.env.settings e)) [
    | inl h ↦ rw h (live-admitted events (happen o relative_to relay e s))
    | inr h ↦
        rw h (
          live-admitted events s
          ∙ ap (λ x. live o relative_to relay events x) (sym (refused e s h)))
  ]

  -- In whatever order the rounds of the tasks and the requests of the REST API come, with whatever
  -- packets, answers, payloads, headers and faults: no two devices have the same MAC address and at
  -- most 100 notifications wait, if this holds at the beginning; and requests without the header
  -- that the configured key wants, or while that key is the one of the example settings, might as
  -- well not have come.
  pub live-admitted_keys :
      (events : List (Event Oid)) (s : System)
      → HasUniqueMacs s.world.tables.devices
      → length s.world.queue ≤ 100
      → HasUniqueMacs (live o relative_to relay events s).world.tables.devices
        × (length (live o relative_to relay events s).world.queue ≤ 100)
        × (live o relative_to relay (keep (is_admitted o.env.settings) events) s
            ≡ live o relative_to relay events s)
  live-admitted_keys events s u b =
      let (v, c) = live-HasKeys events s (u, b) in (v, c, live-admitted events s)
