-- ===== src/Tests/Values.antt =====
-- The texts of notifications and the choice of addresses, at values.
use oott.Prelude.{true, ◌≡◌, Option, some, List, [], ◌∷◌, any, map}
use oott.Prelude.Text.{Text, bytes}
use oott.Notify.Render.{
  render_new_device, render_device_back_online, render_device_changed, render_new_devices_summary,
  render_back_online_summary, render_changed_summary,
}
use oott.Notify.Render.Privacy.{anonymous, texts_of_anonymous}
use oott.Scanners.Ipv4.{Ipv4Addr, ipv4}
use oott.Scanners.Snmp.{IpsByMac, dedup_by_mac}
use oott.Scanners.Snmp.Choice.{AreChosen, AreSorted, in_group, is_pair, dedup_by_mac-AreChosen}
use oott.Tests.Fixture.{phone, printer}

texts_of_anonymous_example :
    ((render_new_device phone).1 ≡ (render_new_device (anonymous phone)).1)
    × ((render_device_back_online phone (bytes "2h")).1
        ≡ (render_device_back_online (anonymous phone) (bytes "2h")).1)
    × ((render_device_changed phone printer true true).1
        ≡ (render_device_changed (anonymous phone) (anonymous printer) true true).1)
    × (render_new_devices_summary (map anonymous (phone ∷ printer ∷ []))
        ≡ render_new_devices_summary (phone ∷ printer ∷ []))
    × (render_back_online_summary (map anonymous (phone ∷ printer ∷ []))
        ≡ render_back_online_summary (phone ∷ printer ∷ []))
    × (render_changed_summary (map anonymous (phone ∷ printer ∷ []))
        ≡ render_changed_summary (phone ∷ printer ∷ []))
texts_of_anonymous_example =
    texts_of_anonymous phone printer (phone ∷ printer ∷ []) (bytes "2h") true true

abbrev pairs : List (Text × Ipv4Addr)
pairs = (bytes "bb", ipv4 10 0 0 7) ∷ (bytes "aa", ipv4 10 0 0 9) ∷ (bytes "bb", ipv4 10 0 0 5) ∷ []

abbrev stored_ip : Text → Option Ipv4Addr
stored_ip mac = some (ipv4 10 0 0 7)

dedup_by_mac-AreChosen_example :
    (groups : IpsByMac) × (out : List (Text × Ipv4Addr)) × (dedup_by_mac pairs stored_ip ≡ some out)
    × AreChosen stored_ip groups out
    × AreSorted groups
    × ((m : Text) (i : Ipv4Addr) → any (in_group m i) groups ≡ any (is_pair m i) pairs)
dedup_by_mac-AreChosen_example = dedup_by_mac-AreChosen pairs stored_ip
