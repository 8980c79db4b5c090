-- ===== src/Events/Detection.antt =====
-- backend/src/events/detection.rs: which changes a sighting of a known device represents.
use oott.Prelude.{ℕ, ◌-◌, Bool, ◌&&◌, ◌||◌, not, List, [], ◌∷◌, ◌++◌, leb, if◌then◌else◌}
use oott.Prelude.Text.{Text, is_empty, text_eq}
use oott.Model.Device.{Device}
use oott.Model.DeviceEvent.{DeviceChange, back_online, changed}

-- `vendor_changed`.
unfoldable pub vendor_changed : Text → Text → Bool
vendor_changed existing sighted =
    not (is_empty existing) && not (is_empty sighted) && not (text_eq existing sighted)

-- `ip_changed`.
unfoldable pub ip_changed : Text → Text → Bool
ip_changed existing sighted =
    not (is_empty existing) && not (is_empty sighted) && not (text_eq existing sighted)

-- `detect_known_device_changes`, at a reading of the clock; a time that lies ahead of it counts as
-- an absence of 0, which is what the subtraction of ℕ gives.
unfoldable pub detect_known_device_changes :
    (threshold at : ℕ) → Device → Device → List DeviceChange
unfolding vendor_changed ip_changed
detect_known_device_changes threshold at existing sighted =
    let elapsed = at - existing.last_seen in
    let ip = ip_changed existing.ipv4_address sighted.ipv4_address in
    let vendor = vendor_changed existing.vendor sighted.vendor in
    (if leb threshold elapsed then back_online sighted elapsed ∷ [] else [])
    ++ (if ip || vendor then changed existing sighted ip vendor ∷ [] else [])
