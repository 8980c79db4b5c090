-- ===== src/System/Startup/Outcomes.antt =====
-- What the start and the end of the program do, whatever fails.
use oott.Prelude.{◌++◌, [], ◌∷◌, Bool, ℕ, true, false, ◌≡◌, ◌⊎◌, Option, List, arith}
use oott.Db.{Env, DbError, Result, ok, err, get_db_connection, parse_rusqlite_migration}
use oott.Notify.Relay.{Relay}
use oott.Scanners.Listening.{Outside}
use oott.Scanners.Polling as Polling
use oott.Scanners.Polling.{set_running}
use oott.Scanners.Arp as Arp
use oott.Scanners.Snmp.Finding as Snmp
use oott.System.{System, init_statuses, arp_scans, snmp_scans}
use oott.System.Api.{round, request, Event, happen, live}
use oott.System.Startup.{
  Program, world_of, connect, attempt, migrate, init_db, MainEnd, returns, panics, fails,
}

-- The tables and the queue are as they were, and the statuses, too.
pub record HasSameData (p q : Program) : Type 0 where
  pub tables : (world_of q).tables ≡ (world_of p).tables
  pub queue : (world_of q).queue ≡ (world_of p).queue
  pub arp : q.system.arp ≡ p.system.arp
  pub snmp : q.system.snmp ≡ p.system.snmp
  pub mdns : q.system.mdns ≡ p.system.mdns
  pub ssdp : q.system.ssdp ≡ p.system.ssdp
  pub dhcp : q.system.dhcp ≡ p.system.dhcp
  pub checkpointed : q.checkpointed ≡ p.checkpointed

-- After a call that succeeded, the flag is set, and the file was migrated unless it was set before.
abbrev pub IsReady : Program → Program → Type 0
IsReady p q =
    (q.initialised ≡ true) × ((p.initialised ≡ true) ⊎ ((q.wal ≡ true) × (q.migrated ≡ true)))

-- A failed migration is not tried again: the next call answers that all is well, and changes
-- nothing, although the migrations were not applied.
pub init_db_after_failure :
    (env : Env) (p : Program)
    → p.migrated ≡ false
    → (init_db env p).0 ≡ err parse_rusqlite_migration
    → let q = (init_db env p).1 in (init_db env q ≡ (ok tt, q)) × (q.migrated ≡ false)
unfolding init_db connect attempt migrate get_db_connection
init_db_after_failure env p h e = ground arith

-- The end: the data that the tasks left, and the flags that were set.
record IsKept (p q : Program) : Type 0 where
  tables : (world_of q).tables ≡ (world_of p).tables
  queue : (world_of q).queue ≡ (world_of p).queue
  initialised : q.initialised ≡ p.initialised
  wal : q.wal ≡ p.wal
  migrated : q.migrated ≡ p.migrated

-- What holds by the end of `main`.
abbrev pub Ending : Type 0 → Type 0 → (DbError → Type 0) → MainEnd → Type 0
Ending returned panicked failed returns = returned
Ending returned panicked failed panics = panicked
Ending returned panicked failed (fails e) = failed e

module _ {Oid : Type 0} (o : Outside) (relative_to : Oid → Option (List ℕ)) (relay : Relay) where
  -- A round whose poll ends with a panic.
  abbrev pub IsPanic : Event Oid → System → Type 0
  IsPanic (round (arp_scans a)) s =
      (Arp.poll o a (set_running o.env (record { world = s.world; status = s.arp }))).0
      ≡ Polling.panics
  IsPanic (round (snmp_scans walked)) s =
      (Snmp.poll o relative_to walked
        (set_running o.env (record { world = s.world; status = s.snmp }))).0
      ≡ Polling.panics
  IsPanic (round _) s = ⊥
  IsPanic (request header endpoint) s = ⊥

  -- None of the events is a round that panics.
  abbrev pub IsQuiet : List (Event Oid) → System → Type 0
  IsQuiet [] s = Unit
  IsQuiet (e ∷ events) s = (IsPanic e s → ⊥) × IsQuiet events (happen o relative_to relay e s)

  -- The events up to the first that panics, which has happened as far as it got, and nothing behind.
  abbrev pub IsBroken : List (Event Oid) → System → System → Type 0
  IsBroken events s s' =
      (before : List (Event Oid)) × (e : Event Oid) × (after : List (Event Oid)) × (events
        ≡ before ++ e ∷ after)
      × IsQuiet before s
      × IsPanic e (live o relative_to relay before s)
      × (s' ≡ happen o relative_to relay e (live o relative_to relay before s))

  abbrev IsJoined : List (Event Oid) → System → Bool × System → Type 0
  IsJoined events s (false, s') = IsQuiet events s × (s' ≡ live o relative_to relay events s)
  IsJoined events s (true, s') = IsBroken events s s'

  -- How the tasks that were started with the program `q` end without a panic, and with one.
  abbrev pub IsCompleted : List (Event Oid) → Program → Program → Type 0
  IsCompleted events q r =
      let s = init_statuses q.system in
      IsQuiet events s
      × ((world_of r).tables ≡ (live o relative_to relay events s).world.tables)
      × ((world_of r).queue ≡ (live o relative_to relay events s).world.queue)

  abbrev pub IsCutOff : List (Event Oid) → Program → Program → Type 0
  IsCutOff events q r =
      IsBroken events (init_statuses q.system) r.system × (r.checkpointed ≡ q.checkpointed)

  -- How `main` ends, where `r` is what the initialisation of the database returns.
  abbrev pub IsEnded :
      List (Event Oid) → Program → Result DbError (Unit {0}) × Program → MainEnd × Program → Type 0
  IsEnded events p r m =
      Ending (IsCompleted events r.1 m.1 × IsReady p m.1) (IsCutOff events r.1 m.1 × IsReady p m.1)
        (λ e. (r.0 ≡ err e) × HasSameData p m.1) m.0
