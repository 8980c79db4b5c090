-- ===== src/Web/Access.antt =====
-- Who gets past the middleware.
use oott.Prelude.{◌≡◌, ap, ◌≢◌, ◌↔◌, ◌⊎◌, ◌++◌, Option, none, some, arith}
use oott.Prelude.Text.{Text, bytes, text_eq_iff}
use oott.Settings.{Settings}
use oott.Web.Http.{json, failed, unauthorized, internal_server_error}
use oott.Web.Auth.{auth}

abbrev pub default_key : Text
default_key = bytes "CHANGE_ME"

-- The header that a key wants.
abbrev pub bearer : Text → Option Text
bearer key = some (bytes "Bearer " ++ key)

-- A request reaches its handler exactly if the configured key is not that of the example settings
-- and the header is `Bearer ` and the key; it is answered 500 exactly if it has a header and the
-- key is that of the example settings, and 401 exactly if it has no header, or the key is another
-- and the header is not the one it wants.
pub auth_iff :
    {A : Type 0} (s : Settings) (header : Option Text) (x : A)
    → ((auth s header (json x) ≡ json x)
        ↔ ((s.web_server.api_key ≢ default_key) × (header ≡ bearer s.web_server.api_key)))
      × ((auth s header (json x) ≡ failed internal_server_error)
          ↔ ((s.web_server.api_key ≡ default_key) × (header ≢ none)))
      × ((auth s header (json x) ≡ failed unauthorized) ↔ (
          (header ≡ none)
          ⊎ ((s.web_server.api_key ≢ default_key) × (header ≢ bearer s.web_server.api_key))))
unfolding auth
auth_iff s none x = (ground arith, ground arith, ground arith)
auth_iff s (some header) x =
    let key = s.web_server.api_key in
    let a = text_eq_iff key default_key in
    let b = text_eq_iff header (bytes "Bearer " ++ key) in
    let c = λ (e : header ≡ bytes "Bearer " ++ key). ap (λ (t : Text). some t) e in
    (ground (arith, a, b, c), ground (arith, a), ground (arith, a, b, c))
