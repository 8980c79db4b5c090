-- ===== src/Scanners/Pipeline/Announcing/Once.antt =====
-- Sequences of sightings by `record_and_notify`, and how often each device is announced as new.
use oott.Prelude.{
  ℕ, ◌+◌, Bool, false, ◌||◌, ◌≡◌, refl, ap, ◌∙◌, none, some, List, [], ◌∷◌, ◌++◌, any, map, keep,
  keep-append, length, length-append, arith, Bool-cases, inl, inr, if◌then◌else◌,
}
use oott.Prelude.Text.{Text, nocase_eq}
use oott.Model.Device.{Device}
use oott.Model.DeviceEvent.{DeviceEventScanner}
use oott.Model.Notification.{new_device_found, device_online_after_time, device_changed, other}
use oott.Db.{World, Env}
use oott.Db.Devices.{has_mac}
use oott.Notify.Headlines.{
  Headline, headline, headlines, new_ones, returned_ones, changed_ones, one_or_summary,
  notify-headlines,
}
use oott.Notify.Volume.{notify-Adds}
use oott.Scanners.Pipeline.{record_sighting, record_and_notify}
use oott.Scanners.Pipeline.Silence.{record_sighting-IsSilent}
use oott.Scanners.Pipeline.Announcing.{known, key, known_same, record_sighting-known}
use oott.Scanners.Pipeline.Announcing.Firsts.{is_first, heard}
use oott.Scanners.Pipeline.Announcing.Sighted.{record_sighting-new_ones, record_sighting-heard}

-- Whether a notification announces that the device of a MAC address is new.
abbrev pub is_announcement : Text → Headline → Bool
is_announcement m (new_device_found, some k) = nocase_eq k m
is_announcement m (new_device_found, none) = false
is_announcement m (device_online_after_time, k) = false
is_announcement m (device_changed, k) = false
is_announcement m (other, k) = false

-- How many notifications announce it.
abbrev pub announcements : Text → List Headline → ℕ
announcements m hs = length (keep (is_announcement m) hs)

-- The event of a new device is stored only of devices that are stored.
abbrev pub IsHistory : World → Type 0
IsHistory w = (m : Text) → known m w ≡ false → heard m w ≡ false

-- The sightings of passive scanners, one after the other.
unfoldable pub run_sightings : Env → (ℕ → Text) → List (Device × DeviceEventScanner) → World → World
unfolding record_and_notify
run_sightings env duration_text [] w = w
run_sightings env duration_text ((device, scanner) ∷ sightings) w =
    run_sightings env duration_text sightings (record_and_notify env duration_text device scanner w)

abbrev pub is_of : Text → Device × DeviceEventScanner → Bool
is_of m (device, scanner) = nocase_eq (key device) m

announcements-append :
    (m : Text) (xs ys : List Headline)
    → announcements m (xs ++ ys) ≡ announcements m xs + announcements m ys
announcements-append m xs ys =
    ap length (keep-append (is_announcement m) xs ys)
    ∙ length-append (keep (is_announcement m) xs) (keep (is_announcement m) ys)

announcements-returned :
    (m : Text) (ds : List Device) → announcements m (one_or_summary device_online_after_time ds) ≡ 0
announcements-returned m [] = refl
announcements-returned m (d ∷ []) = refl
announcements-returned m (d ∷ e ∷ r) = refl

announcements-changed :
    (m : Text) (ds : List Device) → announcements m (one_or_summary device_changed ds) ≡ 0
announcements-changed m [] = refl
announcements-changed m (d ∷ []) = refl
announcements-changed m (d ∷ e ∷ r) = refl

module _ (env : Env) (duration_text : ℕ → Text) (sound : (n : ℕ) → env.db_fails n ≡ false) where
  record_and_notify-known :
      (m : Text) (d : Device) (s : DeviceEventScanner) (w : World)
      → known m (record_and_notify env duration_text d s w) ≡ (known m w || nocase_eq (key d) m)
  unfolding record_and_notify
  record_and_notify-known m d s w =
      let (changes, w₁) = record_sighting env d s w in
      ap (any (has_mac m)) (notify-Adds env duration_text changes w₁).devices
      ∙ record_sighting-known env sound m d s w

  record_and_notify-heard :
      (m : Text) (d : Device) (s : DeviceEventScanner) (w : World)
      → nocase_eq (key d) m ≡ false
      → heard m (record_and_notify env duration_text d s w) ≡ heard m w
  unfolding record_and_notify
  record_and_notify-heard m d s w differs =
      let (changes, w₁) = record_sighting env d s w in
      ap (any (is_first m)) (notify-Adds env duration_text changes w₁).events
      ∙ record_sighting-heard env sound m d s w differs

  record_and_notify-IsHistory :
      (d : Device) (s : DeviceEventScanner) (w : World)
      → IsHistory w
      → IsHistory (record_and_notify env duration_text d s w)
  record_and_notify-IsHistory d s w h m unknown =
      let k = record_and_notify-known m d s w in
      let (was, differs) : (known m w ≡ false) × (nocase_eq (key d) m ≡ false) = ground arith in
      record_and_notify-heard m d s w differs ∙ h m was

  -- The announcements among the headlines of one sighting's changes.
  announced_new :
      (m : Text) (d : Device) (w : World)
      → announcements m (one_or_summary new_device_found (if known (key d) w then [] else d ∷ []))
        ≡ (if known m w then 0 else if nocase_eq (key d) m then 1 else 0)
  announced_new m d w = elim (Bool-cases (nocase_eq (key d) m)) [
    | inl same ↦ let k = known_same (key d) m w same in ground (arith, k, same)
    | inr differs ↦ ground (arith, differs)
  ]

  record_and_notify-announcements :
      (m : Text) (d : Device) (s : DeviceEventScanner) (w : World)
      → IsHistory w
      → announcements m (headlines (record_and_notify env duration_text d s w))
        ≡ announcements m (headlines w)
          + (if known m w then 0 else if nocase_eq (key d) m then 1 else 0)
  unfolding record_and_notify
  record_and_notify-announcements m d s w h =
      let (cs, w₁) = record_sighting env d s w in
      let new = one_or_summary new_device_found (new_ones cs) in
      let returned = one_or_summary device_online_after_time (returned_ones cs) in
      let others = one_or_summary device_changed (changed_ones cs) in
      let fresh =
        ap (λ ds. announcements m (one_or_summary new_device_found ds))
          (record_sighting-new_ones env sound d s w (h (key d)))
        ∙ announced_new m d w in
      let before = ap (map headline) (record_sighting-IsSilent env d s w).notifications in
      ap (announcements m) (notify-headlines env duration_text sound cs w₁)
      ∙ announcements-append m (headlines w₁) (new ++ (returned ++ others))
      ∙ omega (
        arith,
        ap (announcements m) before,
        announcements-append m new (returned ++ others),
        announcements-append m returned others,
        announcements-returned m (returned_ones cs),
        announcements-changed m (changed_ones cs),
        fresh,
      )

  -- Where no call of the database fails and events of new devices are stored only of devices that
  -- are stored: any sequence of sightings, of any devices by any passive scanners, adds exactly one
  -- notification that announces the device of a MAC address as new if the device was not stored and
  -- is among those sighted, and none otherwise.
  pub run_sightings-announces_once :
      (m : Text) (sightings : List (Device × DeviceEventScanner)) (w : World)
      → IsHistory w
      → announcements m (headlines (run_sightings env duration_text sightings w))
        ≡ announcements m (headlines w)
          + (if known m w then 0 else if any (is_of m) sightings then 1 else 0)
  unfolding run_sightings
  run_sightings-announces_once m [] w h = ground arith
  run_sightings-announces_once m ((d, s) ∷ sightings) w h =
      let w₁ = record_and_notify env duration_text d s w in
      run_sightings-announces_once m sightings w₁ (record_and_notify-IsHistory d s w h)
      ∙ ground (arith, record_and_notify-announcements m d s w h, record_and_notify-known m d s w)
