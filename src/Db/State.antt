-- ===== src/Db/State.antt =====
-- The tables, the state around them, and what the outside decides: the clock and the faults.
use oott.Prelude.{ℕ, suc, Bool, Option, List, if◌then◌else◌}
use oott.Prelude.Text.{Text}
use oott.Model.Device.{Device}
use oott.Model.DeviceEvent.{DeviceEvent}
use oott.Model.Notification.{Notification}
use oott.Model.PushToken.{PushToken}
use oott.Settings.{Settings}

-- The rows of each table, in the order of their insertion.
pub record Tables : Type 0 where
  pub devices : List Device
  pub device_events : List DeviceEvent
  pub notifications : List Notification
  pub push_tokens : List PushToken

pub record DeliveryRequest : Type 0 where
  pub title : Text
  pub body : Text

-- `clock_reads` and `db_calls` count what has been asked of the outside so far. `delivery_tx` says
-- whether the delivery loop runs, and `queue` is its bounded channel.
pub record World : Type 0 where
  pub tables : Tables
  pub clock_reads : ℕ
  pub db_calls : ℕ
  pub delivery_tx : Bool
  pub queue : List DeliveryRequest

-- What the program does not decide: the settings, the n-th reading of the clock, whether the n-th
-- call of the database fails, and the third-party conversions of durations and times.
pub record Env : Type 0 where
  pub settings : Settings
  pub clock : ℕ → ℕ
  pub db_fails : ℕ → Bool
  -- `chrono::Duration::from_std`
  pub from_std : ℕ → Option ℕ
  -- `to_rfc3339_opts(SecondsFormat::Nanos, false)`, which the tables hold, and `to_rfc3339`
  pub to_rfc3339_nanos : ℕ → Text
  pub to_rfc3339 : ℕ → Text

pub data DbError : Type 0 where
  parse_rusqlite parse_rusqlite_migration pool : DbError

pub data Result {ℓ κ} (E : Type κ) (A : Type ℓ) : Type (ℓ ⊔ κ) where
  ok : A → Result E A
  err : E → Result E A

-- A computation on the state that can fail.
abbrev pub Db : Type 0 → Type 0
Db A = World → Result DbError A × World

abbrev pub bind_result :
    {A B : Type 0} → (A → Db B) → Result DbError A × World → Result DbError B × World
bind_result f (ok a, w) = f a w
bind_result f (err e, w) = (err e, w)

infixl 5 ◌>>=◌ ◌>>◌
abbrev pub ◌>>=◌ : {A B : Type 0} → Db A → (A → Db B) → Db B
◌>>=◌ m f w = bind_result f (m w)

abbrev pub ◌>>◌ : {B : Type 0} → Db (Unit {0}) → Db B → Db B
◌>>◌ m k w = bind_result (λ _. k) (m w)

abbrev pub pure : {A : Type 0} → A → Db A
pure a w = (ok a, w)

-- The world after one more call of the database.
abbrev pub called : World → World
called w = record w { db_calls = suc w.db_calls }

abbrev pub commit_result :
    {A : Type 0} → World → Result DbError (A × Tables) → Result DbError A × World
commit_result w (ok (a, t)) = (ok a, record w { tables = t })
commit_result w (err e) = (err e, w)

-- `db::get_db_connection`: a call that can fail with a pool error.
unfoldable pub get_db_connection : Env → Db (Unit {0})
get_db_connection env w =
    if env.db_fails w.db_calls then (err pool, called w) else (ok tt, called w)

-- `conn.execute` and the queries: a statement reads or changes the tables, or is refused by them.
-- A statement that fails leaves the tables as they were.
unfoldable pub execute : {A : Type 0} → Env → (Tables → Result DbError (A × Tables)) → Db A
execute env statement w =
    if env.db_fails w.db_calls
    then (err parse_rusqlite, called w)
    else commit_result (called w) (statement w.tables)

abbrev pub close_transaction :
    {A : Type 0} → Env → Tables → Result DbError A × World → Result DbError A × World
close_transaction env before (ok a, w) =
    if env.db_fails w.db_calls
    then (err parse_rusqlite, record w { tables = before; db_calls = suc w.db_calls })
    else (ok a, called w)
close_transaction env before (err e, w) = (err e, record w { tables = before })

-- `conn.transaction()`, the statements, and `tx.commit()`: what fails before the end of the commit
-- rolls the tables back.
unfoldable pub transaction : {A : Type 0} → Env → Db A → Db A
transaction env body w =
    if env.db_fails w.db_calls
    then (err parse_rusqlite, called w)
    else close_transaction env w.tables (body (called w))

-- `Utc::now()`: a reading of the clock, which cannot fail.
abbrev pub read_clock : World → World
read_clock w = record w { clock_reads = suc w.clock_reads }

abbrev pub now : Env → World → ℕ
now env w = env.clock w.clock_reads

unfoldable pub utc_now : Env → Db ℕ
utc_now env w = (ok (now env w), read_clock w)

-- A postcondition of a call: what holds where it failed, and what of its value where it did not.
abbrev pub Outcome {ℓ} : {E A : Type 0} → Type ℓ → (A → Type ℓ) → Result E A → Type ℓ
Outcome F P (ok a) = P a
Outcome F P (err e) = F
