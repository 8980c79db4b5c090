-- ===== src/Notify/Render/Privacy.antt =====
-- What the texts of notifications say nothing of: addresses, and but for the absence when a device was
-- last seen.
use oott.Prelude.{ℕ, zero, suc, Bool, ◌≡◌, refl, ap, ◌++◌, List, [], ◌∷◌, map, length, take}
use oott.Prelude.Text.{Text, bytes}
use oott.Model.Device.{Device}
use oott.Notify.Render.{
  render_new_device, render_device_back_online, render_device_changed, render_new_devices_summary,
  render_back_online_summary, render_changed_summary, summary_device_line, device_list_lines,
  summary_list_limit,
}

-- A device without its addresses and times.
abbrev pub anonymous : Device → Device
anonymous d = record d { mac_address = []; ipv4_address = []; last_seen = 0 }

length-map : (ds : List Device) → length (map anonymous ds) ≡ length ds
length-map [] = refl
length-map (d ∷ ds) = ap suc (length-map ds)

take-map : (n : ℕ) (ds : List Device) → take n (map anonymous ds) ≡ map anonymous (take n ds)
take-map zero ds = refl
take-map (suc n) [] = refl
take-map (suc n) (d ∷ ds) = ap (λ l. anonymous d ∷ l) (take-map n ds)

device_list_lines-map :
    (ds : List Device) → device_list_lines (map anonymous ds) ≡ device_list_lines ds
unfolding device_list_lines summary_device_line
device_list_lines-map [] = refl
device_list_lines-map (d ∷ ds) =
    ap (λ t. bytes "  - " ++ summary_device_line d ++ (10 ∷ []) ++ t) (device_list_lines-map ds)

-- The body of a notification about one device, and title and body of one about several, are those
-- of the devices without their MAC and IP addresses and without the time they were last seen. The
-- text of the absence, which the body of a device that is back online prints, is given.
pub texts_of_anonymous :
    (d e : Device) (ds : List Device) (duration_text : Text) (ip_changed vendor_changed : Bool)
    → ((render_new_device d).1 ≡ (render_new_device (anonymous d)).1)
      × ((render_device_back_online d duration_text).1
          ≡ (render_device_back_online (anonymous d) duration_text).1)
      × ((render_device_changed d e ip_changed vendor_changed).1
          ≡ (render_device_changed (anonymous d) (anonymous e) ip_changed vendor_changed).1)
      × (render_new_devices_summary (map anonymous ds) ≡ render_new_devices_summary ds)
      × (render_back_online_summary (map anonymous ds) ≡ render_back_online_summary ds)
      × (render_changed_summary (map anonymous ds) ≡ render_changed_summary ds)
unfolding render_new_device render_device_back_online render_device_changed
    render_new_devices_summary render_back_online_summary render_changed_summary
texts_of_anonymous d e ds duration_text ip_changed vendor_changed = (
  refl,
  refl,
  refl,
  rw
      (
        length-map ds,
        take-map summary_list_limit ds,
        device_list_lines-map (take summary_list_limit ds),
      )
      refl,
  rw
      (
        length-map ds,
        take-map summary_list_limit ds,
        device_list_lines-map (take summary_list_limit ds),
      )
      refl,
  rw
      (
        length-map ds,
        take-map summary_list_limit ds,
        device_list_lines-map (take summary_list_limit ds),
      )
      refl,
)
