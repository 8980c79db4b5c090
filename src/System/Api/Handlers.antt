-- ===== src/System/Api/Handlers.antt =====
-- What the handlers of the requests do to the world.
use oott.Prelude.{Option, none, some, arith, unwrap_or}
use oott.Prelude.Text.{Text, bytes}
use oott.Model.Device.{Device}
use oott.Settings.{default_push}
use oott.Db.{World, Env}
use oott.Db.Devices as Store
use oott.Db.Devices.Keys.{registers, unregisters, updates, deletes, run_call}
use oott.Db.Devices.Listing.{get_summary, list_devices, count_devices}
use oott.Db.DeviceEvents as Events
use oott.Db.Notifications as Notices
use oott.Db.PushTokens as Tokens
use oott.Web.Notifications as Notifications
use oott.Web.PushTokens as PushTokens
use oott.Notify.Relay.{Relay, send, to_relay}
use oott.Notify.Delivering.{relayed, deliver_by}
use oott.Notify.Delivering.Log.{deliver_by-SameQueue}
use oott.Notify.Delivering.Devices.{deliver_by-devices}
use oott.Web.Devices as Devices
use oott.Web.Devices.{
  RegisterDevicePayload, UpdateDevicePayload, register_found, update_found, unregister_found,
  delete_found, list_events,
}
use oott.Web.ScannerStatus.{active_status, passive_status}
use oott.Scanners.Polling.{Poller}
use oott.Scanners.Listening.{Listener}
use oott.System.{System}
use oott.System.Api.{
  arp_status, snmp_status, mdns_status, ssdp_status, dhcp_status, notifications_test,
  devices_summary, devices_register, devices_update, devices_unregister, devices_delete, Endpoint,
  handle, respond,
}
use oott.System.Api.Guards.{
  IsGuarded, untouched, IsGuarded-trans, reply_to-world, answer_to-world, delivered-IsGuarded,
  call-IsGuarded, same, branch-IsGuarded, read-IsGuarded, get_summary-Guards,
}

module _ (env : Env) where
  register_found-IsGuarded :
      (payload : RegisterDevicePayload) (r : Option Device × World)
      → IsGuarded r.1 (register_found env payload r).1
  unfolding register_found run_call
  register_found-IsGuarded payload (none, w) = same w
  register_found-IsGuarded p (some d, w) =
      let call = registers p.mac_address p.owner p.device_type p.name in
      branch-IsGuarded d.is_registered w _ _ (same w) (
        reply_to-world _ _ w (Store.register env p.mac_address p.owner p.device_type p.name w)
          (call-IsGuarded env call w))

  update_found-IsGuarded :
      (mac : Text) (payload : UpdateDevicePayload) (r : Option Device × World)
      → IsGuarded r.1 (update_found env mac payload r).1
  unfolding update_found run_call
  update_found-IsGuarded mac payload (none, w) = same w
  update_found-IsGuarded mac p (some d, w) =
      let call = updates mac p.owner p.device_type p.vendor p.name in
      branch-IsGuarded d.is_registered w _ _
        (reply_to-world _ _ w (Store.update env mac p.owner p.device_type p.vendor p.name w)
          (call-IsGuarded env call w))
        (same w)

  unregister_found-IsGuarded :
      (mac : Text) (r : Option Device × World) → IsGuarded r.1 (unregister_found env mac r).1
  unfolding unregister_found run_call
  unregister_found-IsGuarded mac (none, w) = same w
  unregister_found-IsGuarded mac (some d, w) =
      branch-IsGuarded d.is_registered w _ _
        (reply_to-world _ _ w (Store.unregister env mac w) (call-IsGuarded env (unregisters mac) w))
        (same w)

  delete_found-IsGuarded :
      (mac : Text) (r : Option Device × World) → IsGuarded r.1 (delete_found env mac r).1
  unfolding delete_found run_call
  delete_found-IsGuarded mac (none, w) = same w
  delete_found-IsGuarded mac (some d, w) =
      reply_to-world _ _ w (Store.delete env mac w) (call-IsGuarded env (deletes mac) w)

  send_test-IsGuarded :
      (relay : Relay) (title body : Text) (w : World)
      → IsGuarded w
          (Notifications.delivered_answer (
            send env relay (unwrap_or default_push env.settings.notifications.push) title body w)).1
  unfolding deliver_by
  send_test-IsGuarded relay title body w =
      let config = unwrap_or default_push env.settings.notifications.push in
      let h =
        deliver_by-SameQueue env relay (to_relay config) (record { title = title; body = body })
          w in
      delivered-IsGuarded w (send env relay config title body w) (
        untouched w (relayed (send env relay config title body w)).1
          (deliver_by-devices env relay (to_relay config) (record { title = title; body = body }) w)
          h.queue)

  handle-IsGuarded : (relay : Relay) (e : Endpoint) (w : World) → IsGuarded w (handle env relay e w)
  unfolding handle Devices.register Devices.update Devices.unregister Devices.delete Devices.read
      Store.read Devices.summary Devices.list Devices.then_count get_summary list_devices
      count_devices list_events Events.list Notifications.list Notifications.then_count
      Notifications.read Notifications.read_marked Notifications.read_without_flagging
      Notifications.mark_as_new Notifications.mark_all_as_old Notices.list Notices.count
      Notices.read Notices.mark_as_old Notices.mark_as_new Notices.mark_all_as_old
      PushTokens.register PushTokens.unregister Tokens.upsert Tokens.delete Notifications.send_test
  handle-IsGuarded relay (devices_register p) w =
      IsGuarded-trans (read-IsGuarded env p.mac_address w)
        (register_found-IsGuarded p (Store.read env p.mac_address w))
  handle-IsGuarded relay (devices_update mac p) w =
      IsGuarded-trans (read-IsGuarded env mac w)
        (update_found-IsGuarded mac p (Store.read env mac w))
  handle-IsGuarded relay (devices_unregister mac) w =
      IsGuarded-trans (read-IsGuarded env mac w)
        (unregister_found-IsGuarded mac (Store.read env mac w))
  handle-IsGuarded relay (devices_delete mac) w =
      IsGuarded-trans (read-IsGuarded env mac w) (delete_found-IsGuarded mac (Store.read env mac w))
  handle-IsGuarded relay notifications_test w =
      send_test-IsGuarded relay (bytes "OOTT test") Notifications.test_body w
  handle-IsGuarded relay devices_summary w =
      answer_to-world w (get_summary env w) (get_summary-Guards env w)
  handle-IsGuarded relay e w = untouched w (handle env relay e w) (ground arith) (ground arith)

  active-IsGuarded : (p : Poller) → IsGuarded p.world (active_status env p).1.world
  unfolding active_status
  active-IsGuarded p = untouched p.world (active_status env p).1.world (ground arith) (ground arith)

  passive-IsGuarded : (l : Listener) → IsGuarded l.world (passive_status env l).1.world
  unfolding passive_status
  passive-IsGuarded l =
      untouched l.world (passive_status env l).1.world (ground arith) (ground arith)

  pub respond-IsGuarded :
      (relay : Relay) (e : Endpoint) (s : System) → IsGuarded s.world (respond env relay e s).world
  unfolding respond
  respond-IsGuarded relay arp_status s =
      active-IsGuarded (record { world = s.world; status = s.arp })
  respond-IsGuarded relay snmp_status s =
      active-IsGuarded (record { world = s.world; status = s.snmp })
  respond-IsGuarded relay mdns_status s =
      passive-IsGuarded (record { world = s.world; status = s.mdns })
  respond-IsGuarded relay ssdp_status s =
      passive-IsGuarded (record { world = s.world; status = s.ssdp })
  respond-IsGuarded relay dhcp_status s =
      passive-IsGuarded (record { world = s.world; status = s.dhcp })
  respond-IsGuarded relay e s = handle-IsGuarded relay e s.world
