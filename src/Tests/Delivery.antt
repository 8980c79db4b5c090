-- ===== src/Tests/Delivery.antt =====
-- Notifications of changes, on the small network.
use oott.Prelude.{◌≡◌, refl, true, false, List, [], ◌∷◌, ◌++◌, leb→le}
use oott.Prelude.Text.{bytes, decimal}
use oott.Model.DeviceEvent.{DeviceChange, back_online, changed}
use oott.Model.Notification.{new_device_found, device_online_after_time, device_changed}
use oott.Notify.{notify}
use oott.Notify.Grouping.{IsDeliverable, notify-IsDeliverable}
use oott.Notify.Headlines.{
  headlines, one_or_summary, new_ones, returned_ones, changed_ones, notify-headlines,
}
use oott.Tests.Fixture.{sound_env, faulty_env, sound_env-no_fault, network, phone, printer}

-- One new device, and two that are back.
abbrev changes : List DeviceChange
changes =
    back_online phone 40
    ∷ DeviceChange.new printer
    ∷ back_online printer 80
    ∷ changed phone (record phone { ipv4_address = bytes "192.168.1.9" }) true false
    ∷ []

network-IsDeliverable : IsDeliverable network
network-IsDeliverable = record { bounded = leb→le 0 100 refl; stored = tt }

notify-IsDeliverable_example : IsDeliverable (notify faulty_env decimal changes network)
notify-IsDeliverable_example =
    notify-IsDeliverable faulty_env decimal changes network network-IsDeliverable

notify-headlines_example :
    headlines (notify sound_env decimal changes network)
    ≡ headlines network
      ++ (one_or_summary new_device_found (new_ones changes)
          ++ (one_or_summary device_online_after_time (returned_ones changes)
              ++ one_or_summary device_changed (changed_ones changes)))
notify-headlines_example = notify-headlines sound_env decimal sound_env-no_fault changes network
