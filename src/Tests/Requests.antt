-- ===== src/Tests/Requests.antt =====
-- Requests to the API, on the small network.
use oott.Prelude.{◌≡◌, ◌≢◌, ◌↔◌, ◌⊎◌, some, none}
use oott.Prelude.Text.{Text, bytes}
use oott.Db.Devices.{registered_row, unregistered_row, updated_row}
use oott.Web.Http.{success, created, json, failed, unauthorized, internal_server_error}
use oott.Web.Auth.{auth}
use oott.Web.Access.{auth_iff, default_key, bearer}
use oott.Web.Devices.{RegisterDevicePayload, UpdateDevicePayload, register, update, unregister}
use oott.Web.Devices.Registration.{ChangesRow, handlers-ChangesRow}
use oott.Tests.Fixture.{settings, faulty_env, network}

abbrev mac : Text
mac = bytes "AA:BB:CC:00:00:01"

abbrev registering : RegisterDevicePayload
registering = record {
  mac_address = mac;
  owner = bytes "Bob";
  device_type = bytes "Phone";
  name = none;
}

abbrev updating : UpdateDevicePayload
updating = record {
  owner = bytes "Eve";
  device_type = bytes "Tablet";
  vendor = bytes "Acme";
  name = some (bytes "pad");
}

handlers_example :
    ChangesRow created mac
      (registered_row (bytes "Bob") (bytes "Phone") none)
      network
      (register faulty_env registering network)
    × ChangesRow success mac
        (updated_row (bytes "Eve") (bytes "Tablet") (bytes "Acme") (some (bytes "pad")))
        network
        (update faulty_env mac updating network)
    × ChangesRow success mac unregistered_row network (unregister faulty_env mac network)
handlers_example = handlers-ChangesRow faulty_env mac registering updating network

auth_example :
    ((auth {A = Text} settings (some (bytes "Bearer secret")) (json mac) ≡ json mac)
      ↔ ((bytes "secret" ≢ default_key) × (some (bytes "Bearer secret") ≡ bearer (bytes "secret"))))
    × ((auth {A = Text} settings (some (bytes "Bearer secret")) (json mac)
          ≡ failed internal_server_error)
        ↔ ((bytes "secret" ≡ default_key) × (some (bytes "Bearer secret") ≢ none)))
    × ((auth {A = Text} settings (some (bytes "Bearer secret")) (json mac) ≡ failed unauthorized)
        ↔ ((some (bytes "Bearer secret") ≡ none)
            ⊎ ((bytes "secret" ≢ default_key)
                × (some (bytes "Bearer secret") ≢ bearer (bytes "secret")))))
auth_example = auth_iff settings (some (bytes "Bearer secret")) mac
