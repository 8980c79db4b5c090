-- ===== src/Web/PushTokens.antt =====
-- backend/src/web_server/push_tokens.rs: the handlers for push tokens.
use oott.Prelude.Text.{Text, bytes}
use oott.Model.PushToken.{PushPlatform}
use oott.Db.{World, Env}
use oott.Db.PushTokens as Store
use oott.Web.Http.{success, Reply}
use oott.Web.Devices.{reply_to}

-- `register`.
unfoldable pub register : Env → Text → PushPlatform → World → Reply × World
unfolding Store.upsert
register env token platform w =
    reply_to (success, bytes "Push token registered")
      (bytes "Error registering push token in the server, check your logs")
      (Store.upsert env token platform w)

-- `unregister`: deleting a token that is not there succeeds, too.
unfoldable pub unregister : Env → Text → World → Reply × World
unfolding Store.delete
unregister env token w =
    reply_to (success, bytes "Push token unregistered")
      (bytes "Error unregistering push token in the server, check your logs")
      (Store.delete env token w)
