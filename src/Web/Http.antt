-- ===== src/Web/Http.antt =====
-- Status codes, and answers with a message or a body.
use oott.Prelude.Text.{Text}

-- The constants of `axum::http::StatusCode` that the handlers use, by their names.
pub data StatusCode : Type 0 where
  success created unauthorized not_found conflict internal_server_error : StatusCode

-- `(StatusCode, &'static str)`.
abbrev pub Reply : Type 0
Reply = StatusCode × Text

-- `Result<Json<A>, StatusCode>`.
pub data Answer (A : Type 0) : Type 0 where
  json : A → Answer A
  failed : StatusCode → Answer A
