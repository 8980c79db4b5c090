-- ===== src/Tests/Devices.antt =====
-- The operations on the tables, on the small network.
use oott.Prelude.{◌≡◌, none, List, [], ◌∷◌}
use oott.Prelude.Text.{bytes}
use oott.Utils.Network.{normalize_mac}
use oott.Db.{Outcome}
use oott.Db.Devices.{delete}
use oott.Db.Devices.Keys.{
  HasUniqueMacs, DeviceCall, inserts, registers, deletes, run_calls, run_calls-HasUniqueMacs,
}
use oott.Db.Devices.Laws.{IsDeleted, delete_atomic}
use oott.Db.PushTokens.{delete_many}
use oott.Db.PushTokens.Uniqueness.{deletes}
use oott.Db.PushTokens.Pruning.{IsPruned, delete_many_atomic}
use oott.Tests.Fixture.{network-HasUniqueMacs, sound_env, faulty_env, network, phone}

abbrev calls : List DeviceCall
calls =
    inserts (record phone { mac_address = bytes "AA:BB:CC:00:00:02" })
    ∷ registers (bytes "AA:bb:cc:00:00:01") (bytes "Bob") (bytes "Phone") none
    ∷ deletes (bytes "aa:bb:cc:00:00:02")
    ∷ []

run_calls_example : HasUniqueMacs (run_calls faulty_env calls network).tables.devices
run_calls_example = run_calls-HasUniqueMacs faulty_env calls network network-HasUniqueMacs

delete_example :
    Outcome
      ((delete sound_env (bytes "AA:BB:CC:00:00:01") network).1.tables ≡ network.tables)
      (IsDeleted
        (normalize_mac (bytes "AA:BB:CC:00:00:01"))
        network.tables
        (delete sound_env (bytes "AA:BB:CC:00:00:01") network).1.tables)
      (delete sound_env (bytes "AA:BB:CC:00:00:01") network).0
delete_example = delete_atomic sound_env (bytes "AA:BB:CC:00:00:01") network

delete_many_example :
    Outcome
      ((delete_many sound_env (bytes "tok-b" ∷ []) network).1.tables ≡ network.tables)
      (IsPruned
        (bytes "tok-b" ∷ [])
        network.tables
        (delete_many sound_env (bytes "tok-b" ∷ []) network).1.tables)
      (delete_many sound_env (bytes "tok-b" ∷ []) network).0
delete_many_example = delete_many_atomic sound_env (bytes "tok-b" ∷ []) network
