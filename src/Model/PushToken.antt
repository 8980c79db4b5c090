-- ===== src/Model/PushToken.antt =====
-- backend/src/model/push_tokens.rs: the push tokens of the apps.
use oott.Prelude.{ℕ, ◌-◌, Option, none, some, if◌then◌else◌, length, drop, ltb}
use oott.Prelude.Text.{Text, bytes, text_eq, to_ascii_lowercase}

pub data PushPlatform : Type 0 where
  android ios : PushPlatform

pub record PushToken : Type 0 where
  pub id : ℕ
  pub token : Text
  pub platform : PushPlatform
  pub created_on : ℕ
  pub last_seen : ℕ

unfoldable pub platform_text : PushPlatform → Text
platform_text android = bytes "android"
platform_text ios = bytes "ios"

unfoldable pub parse_platform : Text → Option PushPlatform
unfolding text_eq to_ascii_lowercase
parse_platform s =
    if text_eq (to_ascii_lowercase s) (bytes "android")
    then some android
    else if text_eq (to_ascii_lowercase s) (bytes "ios")
    then some ios
    else none

-- The part of a token that its log line shows.
unfoldable pub token_suffix : Text → Text
token_suffix token = if ltb 6 (length token) then drop (length token - 6) token else token
