-- ===== src/Events/Changes.antt =====
-- What counts as a change of a known device, and what is returned for a notification.
use oott.Prelude.{ℕ, ◌-◌, ◌≤◌, true, ◌≡◌, ◌≢◌, ◌↔◌, ◌⊎◌, List, [], ◌∷◌, arith}
use oott.Prelude.Text.{Text, text_eq_iff}
use oott.Model.Device.{Device}
use oott.Model.DeviceEvent.{DeviceChange, back_online, changed}
use oott.Events.Detection.{vendor_changed, ip_changed, detect_known_device_changes}

-- A value has changed if it was known, is known, and differs.
abbrev pub IsChange : Text → Text → Type 0
IsChange existing sighted = (existing ≢ []) × (sighted ≢ []) × (existing ≢ sighted)

vendor_changed_iff :
    (existing sighted : Text) → (vendor_changed existing sighted ≡ true) ↔ IsChange existing sighted
unfolding vendor_changed
vendor_changed_iff [] sighted = ground arith
vendor_changed_iff (a ∷ s) [] = ground arith
vendor_changed_iff (a ∷ s) (b ∷ t) = ground (arith, text_eq_iff (a ∷ s) (b ∷ t))

ip_changed_iff :
    (existing sighted : Text) → (ip_changed existing sighted ≡ true) ↔ IsChange existing sighted
unfolding ip_changed
ip_changed_iff [] sighted = ground arith
ip_changed_iff (a ∷ s) [] = ground arith
ip_changed_iff (a ∷ s) (b ∷ t) = ground (arith, text_eq_iff (a ∷ s) (b ∷ t))

-- Membership in a list of changes.
abbrev pub IsIn : DeviceChange → List DeviceChange → Type 0
IsIn c [] = ⊥
IsIn c (x ∷ xs) = (c ≡ x) ⊎ IsIn c xs

-- What a change says of the stored device and the sighting, at a reading of the clock.
abbrev pub IsDetected : (threshold at : ℕ) → Device → Device → DeviceChange → Type 0
IsDetected threshold at existing sighted (DeviceChange.new device) = ⊥
IsDetected threshold at existing sighted (back_online device absent_for) =
    (device ≡ sighted) × (absent_for ≡ at - existing.last_seen) × (threshold ≤ absent_for)
IsDetected threshold at existing sighted (changed a b ip vendor) =
    (a ≡ existing)
    × (b ≡ sighted)
    × ((ip ≡ true) ↔ IsChange existing.ipv4_address sighted.ipv4_address)
    × ((vendor ≡ true) ↔ IsChange existing.vendor sighted.vendor)
    × ((ip ≡ true) ⊎ (vendor ≡ true))

IsDetected-sound :
    (threshold at : ℕ) (existing sighted : Device) (c : DeviceChange)
    → IsIn c (detect_known_device_changes threshold at existing sighted)
    → IsDetected threshold at existing sighted c
unfolding detect_known_device_changes
IsDetected-sound threshold at existing sighted (DeviceChange.new device) h = ground arith
IsDetected-sound threshold at existing sighted (back_online device absent_for) h = ground arith
IsDetected-sound threshold at existing sighted (changed a b ip vendor) h = ground (
  arith,
  ip_changed_iff existing.ipv4_address sighted.ipv4_address,
  vendor_changed_iff existing.vendor sighted.vendor,
)

IsDetected-complete :
    (threshold at : ℕ) (existing sighted : Device) (c : DeviceChange)
    → IsDetected threshold at existing sighted c
    → IsIn c (detect_known_device_changes threshold at existing sighted)
unfolding detect_known_device_changes
IsDetected-complete threshold at existing sighted (DeviceChange.new device) h = ground arith
IsDetected-complete threshold at existing sighted (back_online device absent_for) h = ground arith
IsDetected-complete threshold at existing sighted (changed a b ip vendor) h = ground (
  arith,
  ip_changed_iff existing.ipv4_address sighted.ipv4_address,
  vendor_changed_iff existing.vendor sighted.vendor,
)

-- A change is detected exactly if it is a return after at least the threshold, with the time of the
-- absence, or a change of the address or the vendor, where both values are known and differ, with
-- the flags that say which; a device that is known is never detected as new.
pub detect_known_device_changes_iff :
    (threshold at : ℕ) (existing sighted : Device) (c : DeviceChange)
    → IsIn c (detect_known_device_changes threshold at existing sighted)
      ↔ IsDetected threshold at existing sighted c
detect_known_device_changes_iff threshold at existing sighted c = (
  IsDetected-sound threshold at existing sighted c,
  IsDetected-complete threshold at existing sighted c,
)
