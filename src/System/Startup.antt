-- ===== src/System/Startup.antt =====
-- backend/src/db.rs, `init_db` and `close`, and `main` of backend/src/main.rs around the tasks.
pub mod Outcomes
use oott.Prelude.{ℕ, suc, Bool, true, false, Option, List, [], ◌∷◌, if◌then◌else◌}
use oott.Db.{
  World, Env, DbError, parse_rusqlite, parse_rusqlite_migration, Result, ok, err, called,
  get_db_connection,
}
use oott.Notify.Relay.{Relay}
use oott.Scanners.Listening.{Outside}
use oott.System.{System, init_statuses, arp_scans, snmp_scans}
use oott.System.Api.{Event, round, request, happen}
use oott.Scanners.Polling as Polling
use oott.Scanners.Polling.{set_running}
use oott.Scanners.Arp as Arp
use oott.Scanners.Snmp.Finding as Snmp

-- The running system, the flag `INITIALISED`, and what is known of the database file: that it is in
-- WAL mode, that all migrations were applied to it, and that its log was folded back.
pub record Program : Type 0 where
  pub system : System
  pub initialised : Bool
  pub wal : Bool
  pub migrated : Bool
  pub checkpointed : Bool

abbrev pub with_world : World → Program → Program
with_world w p = record p { system = record p.system { world = w } }

-- A call of the database that changes no table, or fails.
abbrev pub world_of : Program → World
world_of p = p.system.world

unfoldable pub connect : Env → Program → Result DbError (Unit {0}) × Program
unfolding get_db_connection
connect env p = let (r, w) = get_db_connection env (world_of p) in (r, with_world w p)

unfoldable pub attempt :
    Env → DbError → (Program → Program) → Program → Result DbError (Unit {0}) × Program
attempt env error change p =
    let q = with_world (called (world_of p)) p in
    if env.db_fails (world_of p).db_calls then (err error, q) else (ok tt, change q)

abbrev pub and_then :
    (Program → Result DbError (Unit {0}) × Program)
    → Result DbError (Unit {0}) × Program
    → Result DbError (Unit {0}) × Program
and_then f (ok _, p) = f p
and_then f (err e, p) = (err e, p)

-- `MIGRATIONS.to_latest`, behind which the flag is set whatever its result.
unfoldable pub migrate : Env → Program → Result DbError (Unit {0}) × Program
unfolding attempt
migrate env p =
    let (r, q) = attempt env parse_rusqlite_migration (λ x. record x { migrated = true }) p in
    (r, record q { initialised = true })

-- `init_db`.
unfoldable pub init_db : Env → Program → Result DbError (Unit {0}) × Program
unfolding connect attempt migrate
init_db env p =
    if p.initialised
    then (ok tt, p)
    else and_then (migrate env)
        (and_then (attempt env parse_rusqlite (λ x. record x { wal = true })) (connect env p))

-- `close`.
unfoldable pub close : Env → Program → Result DbError (Unit {0}) × Program
unfolding connect attempt
close env p =
    and_then (attempt env parse_rusqlite (λ x. record x { checkpointed = true })) (connect env p)

-- How `main` ends: with an error of `init_db`, with a panic of a task, or without an error.
pub data MainEnd : Type 0 where
  returns panics : MainEnd
  fails : DbError → MainEnd

-- Whether the end of a round is a panic.
abbrev pub is_panic : {E : Type 0} → Polling.RoundEnd E → Bool
is_panic Polling.sleeps = false
is_panic Polling.panics = true
is_panic (Polling.fails e) = false

module _ {Oid : Type 0} (o : Outside) (relative_to : Oid → Option (List ℕ)) (relay : Relay) where
  -- Whether a round panics. The rounds of the other tasks and the handlers have no panic; one of a
  -- handler would end its connection only.
  unfoldable pub breaks : Event Oid → System → Bool
  unfolding set_running Arp.poll Snmp.poll
  breaks (round (arp_scans a)) s =
      is_panic (Arp.poll o a (set_running o.env (record { world = s.world; status = s.arp }))).0
  breaks (round (snmp_scans walked)) s =
      is_panic
        (Snmp.poll o relative_to walked
          (set_running o.env (record { world = s.world; status = s.snmp }))).0
  breaks (round _) s = false
  breaks (request header endpoint) s = false

  -- The tasks up to the end of them all, or to the first panic: `join!` polls them all in `main`.
  unfoldable pub join : List (Event Oid) → System → Bool × System
  unfolding breaks happen
  join [] s = (false, s)
  join (e ∷ events) s =
      let s' = happen o relative_to relay e s in
      let rest = join events s' in if breaks e s then (true, s') else rest

  abbrev pub after_join : Program → Bool × System → MainEnd × Program
  after_join p (true, s) = (panics, record p { system = s })
  after_join p (false, s) = (returns, (close o.env (record p { system = s })).1)

  -- The tasks, from the start of the statuses on, and the final checkpoint, whose error is logged.
  unfoldable pub run_tasks : List (Event Oid) → Program → MainEnd × Program
  unfolding init_statuses join close
  run_tasks events p = after_join p (join events (init_statuses p.system))

  abbrev pub unless_failed :
      List (Event Oid) → Result DbError (Unit {0}) × Program → MainEnd × Program
  unless_failed events (ok _, p) = run_tasks events p
  unless_failed events (err e, p) = (fails e, p)

  -- `main`, behind the settings and the log level.
  unfoldable pub main : List (Event Oid) → Program → MainEnd × Program
  unfolding init_db run_tasks
  main events p = unless_failed events (init_db o.env p)
