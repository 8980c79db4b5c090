-- ===== src/System/Api.antt =====
-- The routes of backend/src/web_server.rs: the requests of the REST API, which are answered while the
-- tasks run. `axum` finds the route of a request and reads its parameters and its payload.
pub mod Guards
pub mod Handlers
pub mod Invariants
pub mod Stale
use oott.Prelude.{ℕ, Bool, Option, List, [], ◌∷◌}
use oott.Prelude.Int.{ℤ}
use oott.Prelude.Text.{Text}
use oott.Model.PushToken.{PushPlatform}
use oott.Db.{World, Env}
use oott.Db.Devices.Listing.{DeviceFilters}
use oott.Notify.Relay.{Relay}
use oott.Web.Http.{Answer, json, failed}
use oott.Web.Auth.{auth}
use oott.Web.Devices as Devices
use oott.Web.Devices.{RegisterDevicePayload, UpdateDevicePayload, list_events}
use oott.Web.Notifications as Notifications
use oott.Web.PushTokens as PushTokens
use oott.Web.ScannerStatus.{active_status, passive_status}
use oott.Scanners.Listening.{Outside}
use oott.System.{System, Activity, act}

-- The routes behind the middleware, with what is read of a request.
pub data Endpoint : Type 0 where
  test_api config_read devices_summary : Endpoint
  devices_list :
      DeviceFilters
      → (sort_by sort_order : Option Text) → (page_offset page_limit : Option ℤ) → Endpoint
  devices_register : RegisterDevicePayload → Endpoint
  devices_unregister devices_delete devices_read : (mac_address : Text) → Endpoint
  devices_update : (mac_address : Text) → UpdateDevicePayload → Endpoint
  device_events_list :
      (mac_address : Text)
      → (created_from : Option ℕ) → (page_offset page_limit : Option ℤ) → Endpoint
  arp_status mdns_status ssdp_status dhcp_status snmp_status : Endpoint
  notifications_list : Option Bool → (page_offset page_limit : Option ℤ) → Endpoint
  notifications_test notifications_mark_all_as_old : Endpoint
  notifications_read notifications_read_without_flagging notifications_mark_as_new :
      (id : ℕ) → Endpoint
  push_tokens_register : (token : Text) → PushPlatform → Endpoint
  push_tokens_unregister : (token : Text) → Endpoint

-- What the handlers of the tables do to the world; the others do nothing to it.
unfoldable pub handle : Env → Relay → Endpoint → World → World
unfolding Devices.summary Devices.list Devices.register Devices.unregister Devices.delete
    Devices.read Devices.update list_events Notifications.list Notifications.send_test
    Notifications.mark_all_as_old Notifications.read Notifications.read_without_flagging
    Notifications.mark_as_new PushTokens.register PushTokens.unregister
handle env relay devices_summary w = (Devices.summary env w).1
handle env relay (devices_list filters sort_by sort_order page_offset page_limit) w =
    (Devices.list env filters sort_by sort_order page_offset page_limit w).1
handle env relay (devices_register payload) w = (Devices.register env payload w).1
handle env relay (devices_unregister mac_address) w = (Devices.unregister env mac_address w).1
handle env relay (devices_delete mac_address) w = (Devices.delete env mac_address w).1
handle env relay (devices_read mac_address) w = (Devices.read env mac_address w).1
handle env relay (devices_update mac_address payload) w =
    (Devices.update env mac_address payload w).1
handle env relay (device_events_list mac_address created_from page_offset page_limit) w =
    (list_events env mac_address created_from page_offset page_limit w).1
handle env relay (notifications_list is_new page_offset page_limit) w =
    (Notifications.list env is_new page_offset page_limit w).1
handle env relay notifications_test w = (Notifications.send_test env relay w).1
handle env relay notifications_mark_all_as_old w = (Notifications.mark_all_as_old env w).1
handle env relay (notifications_read id) w = (Notifications.read env id w).1
handle env relay (notifications_read_without_flagging id) w =
    (Notifications.read_without_flagging env id w).1
handle env relay (notifications_mark_as_new id) w = (Notifications.mark_as_new env id w).1
handle env relay (push_tokens_register token platform) w =
    (PushTokens.register env token platform w).1
handle env relay (push_tokens_unregister token) w = (PushTokens.unregister env token w).1
handle env relay _ w = w

-- A request that the middleware lets through. The handlers of a status use the scanner's cell, too.
unfoldable pub respond : Env → Relay → Endpoint → System → System
unfolding handle active_status passive_status
respond env relay arp_status s =
    let p = (active_status env (record { world = s.world; status = s.arp })).1 in
    record s { world = p.world; arp = p.status }
respond env relay snmp_status s =
    let p = (active_status env (record { world = s.world; status = s.snmp })).1 in
    record s { world = p.world; snmp = p.status }
respond env relay mdns_status s =
    let l = (passive_status env (record { world = s.world; status = s.mdns })).1 in
    record s { world = l.world; mdns = l.status }
respond env relay ssdp_status s =
    let l = (passive_status env (record { world = s.world; status = s.ssdp })).1 in
    record s { world = l.world; ssdp = l.status }
respond env relay dhcp_status s =
    let l = (passive_status env (record { world = s.world; status = s.dhcp })).1 in
    record s { world = l.world; dhcp = l.status }
respond env relay endpoint s = record s { world = handle env relay endpoint s.world }

abbrev admitted : Answer System → System → System
admitted (json s) refused = s
admitted (failed code) refused = refused

-- A request with its AUTHORIZATION header: the middleware stands in front of every handler.
unfoldable pub serve : Env → Relay → Option Text → Endpoint → System → System
unfolding auth respond
serve env relay header endpoint s =
    admitted (auth env.settings header (json (respond env relay endpoint s))) s

-- What happens to the running program: a round of a task, or a request.
pub data Event (Oid : Type 0) : Type 0 where
  round : Activity Oid → Event Oid
  request : (header : Option Text) → Endpoint → Event Oid

module _ {Oid : Type 0} (o : Outside) (relative_to : Oid → Option (List ℕ)) (relay : Relay) where
  unfoldable pub happen : Event Oid → System → System
  unfolding act serve
  happen (round a) s = act o relative_to relay a s
  happen (request header endpoint) s = serve o.env relay header endpoint s

  unfoldable pub live : List (Event Oid) → System → System
  unfolding happen
  live [] s = s
  live (e ∷ events) s = live events (happen e s)
