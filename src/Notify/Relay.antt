-- ===== src/Notify/Relay.antt =====
-- backend/src/notifications/push.rs and `deliver`: what is sent to the push relay, and the tokens
-- that its answer prunes.
pub mod Pushing
pub mod Queue
use oott.Prelude.{
  ℕ, Bool, ◌||◌, Option, none, some, List, [], ◌∷◌, map, keep, length, if◌then◌else◌, unwrap_or,
}
use oott.Prelude.Text.{Text, bytes, text_eq}
use oott.Settings.{Pushover, Push, default_push}
use oott.Model.PushToken.{PushToken}
use oott.Db.{World, Env, DbError, Result, ok, err}
use oott.Db.PushTokens.{list, delete_many}

-- `RelayTokenResult` and `RelayRequest`.
pub record RelayTokenResult : Type 0 where
  pub token : Text
  pub status : Text

pub record RelayRequest : Type 0 where
  pub tokens : List Text
  pub title : Text
  pub body : Text

-- `DeliveryError`.
pub data DeliveryError : Type 0 where
  parse_pushover http : DeliveryError
  db : DbError → DeliveryError

-- `is_dead_status`.
unfoldable pub is_dead_status : Text → Bool
unfolding text_eq
is_dead_status status = text_eq status (bytes "unregistered") || text_eq status (bytes "invalid")

-- `dead_tokens`.
unfoldable pub dead_tokens : List RelayTokenResult → List Text
unfolding is_dead_status
dead_tokens results = map (λ r. r.token) (keep (λ r. is_dead_status r.status) results)

-- The number of results with the status "ok".
unfoldable pub delivered_count : List RelayTokenResult → ℕ
unfolding text_eq
delivered_count results = length (keep (λ r. text_eq r.status (bytes "ok")) results)

-- The relay: the results that it answers to a request at a URL, or an error of the HTTP client.
abbrev pub Relay : Type 0
Relay = Text → RelayRequest → Option (List RelayTokenResult)

abbrev deleted_then : ℕ → Result DbError ℕ × World → Result DeliveryError ℕ × World
deleted_then delivered (ok n, w) = (ok delivered, w)
deleted_then delivered (err e, w) = (err (db e), w)

-- What follows the answer: the dead tokens are deleted if there are any.
unfoldable pub after_answer :
    Env → Option (List RelayTokenResult) → World → Result DeliveryError ℕ × World
unfolding dead_tokens delivered_count
after_answer env none w = (err http, w)
after_answer env (some results) w =
    deleted_then (delivered_count results) (delete_many env (dead_tokens results) w)

unfoldable pub after_list :
    Env
    → Relay
    → Push
    → Text
    → Text
    → Result DbError (List PushToken) × World
    → Result DeliveryError ℕ × World
unfolding after_answer
after_list env relay config title body (err e, w) = (err (db e), w)
after_list env relay config title body (ok [], w) = (ok 0, w)
after_list env relay config title body (ok (p ∷ ps), w) =
    after_answer env
      (relay config.relay_url
        (record { tokens = map (λ t. t.token) (p ∷ ps); title = title; body = body }))
      w

-- `send`.
unfoldable pub send : Env → Relay → Push → Text → Text → World → Result DeliveryError ℕ × World
unfolding list after_list delete_many
send env relay config title body w = after_list env relay config title body (list env w)

-- Where `deliver` sends a request.
pub data Route : Type 0 where
  to_pushover : Pushover → Route
  pushover_missing : Route
  to_relay : Push → Route
  only_logged : Route

abbrev pub pushover_route : Option Pushover → Route
pushover_route none = pushover_missing
pushover_route (some config) = to_pushover config

-- The choice of `deliver` by the configured method.
unfoldable pub delivery_route : Env → Route
unfolding text_eq default_push
delivery_route env =
    let n = env.settings.notifications in
    if text_eq n.method (bytes "pushover")
    then pushover_route n.pushover
    else if text_eq n.method (bytes "push")
    then to_relay (unwrap_or default_push n.push)
    else only_logged
