-- ===== src/Tests/Starting.antt =====
-- The program from its start to the panic of a scan, and a migration that fails.
use oott.Prelude.{ℕ, false, ◌≡◌, refl, some, List, [], ◌∷◌}
use oott.Prelude.Text.{bytes}
use oott.Db.{ok, err, parse_rusqlite_migration}
use oott.System.{sweeps, delivery_receives, arp_scans}
use oott.System.Api.{Event, round, request, notifications_test}
use oott.System.Startup.{Program, init_db}
use oott.System.Startup.Outcomes.{init_db_after_failure}
use oott.Tests.Fixture.{faulty_env}
use oott.Tests.Rounds.{system, truncated}

abbrev program : Program
program = record {
  system = system;
  initialised = false;
  wal = false;
  migrated = false;
  checkpointed = false;
}

abbrev events : List (Event ℕ)
events =
    round sweeps
    ∷ round (arp_scans truncated)
    ∷ request (some (bytes "Bearer secret")) notifications_test
    ∷ round delivery_receives
    ∷ []

-- The third call of the database is the migration.
migration_fails : (init_db faulty_env program).0 ≡ err parse_rusqlite_migration
unfolding init_db
migration_fails = refl

init_db_after_failure_example :
    let q = (init_db faulty_env program).1 in
    (init_db faulty_env q ≡ (ok tt, q)) × (q.migrated ≡ false)
init_db_after_failure_example = init_db_after_failure faulty_env program refl migration_fails
