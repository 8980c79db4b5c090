-- ===== src/Web/Auth.antt =====
-- `auth` of backend/src/web_server.rs: the middleware in front of every API route.
use oott.Prelude.{Option, none, some, ◌++◌, if◌then◌else◌}
use oott.Prelude.Text.{Text, bytes, text_eq}
use oott.Settings.{Settings}
use oott.Web.Http.{unauthorized, internal_server_error, Answer, failed}

abbrev check_key : {A : Type 0} → Text → Text → Answer A → Answer A
check_key api_key header next =
    if text_eq api_key (bytes "CHANGE_ME")
    then failed internal_server_error
    else if text_eq header (bytes "Bearer " ++ api_key)
    then next
    else failed unauthorized

-- `auth`: the header is the request's AUTHORIZATION header, where it is text; `next` is the answer
-- of the handler behind the middleware.
unfoldable pub auth : {A : Type 0} → Settings → Option Text → Answer A → Answer A
unfolding text_eq
auth settings none next = failed unauthorized
auth settings (some header) next = check_key settings.web_server.api_key header next
