-- ===== src/Db/Chronology.antt =====
-- What the program relies on of `chrono`'s RFC 3339 texts of UTC times: the texts with nine digits
-- of a second sort as the times do, and a text of `to_rfc3339`, whatever its number of digits, is
-- at most such a text exactly if its time is.
use oott.Prelude.{ℕ, ◌≡◌, leb}
use oott.Db.State.{Env}
use oott.Db.Sql.{text_le}

pub record IsChronological (env : Env) : Type 0 where
  pub stored_order : (a b : ℕ) → text_le (env.to_rfc3339_nanos a) (env.to_rfc3339_nanos b) ≡ leb a b
  pub bound_order : (a b : ℕ) → text_le (env.to_rfc3339 a) (env.to_rfc3339_nanos b) ≡ leb a b
