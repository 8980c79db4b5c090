-- ===== src/Scanners/Polling/Recruiting.antt =====
-- What the sightings of a scan do to the devices and to the notifications.
use oott.Prelude.{
  ℕ, suc, ◌+◌, ◌≤◌, Bool, false, ◌≡◌, refl, ◌∙◌, ap, sym, List, [], ◌∷◌, ◌++◌, map, length,
  length-append, arith, inl, inr,
}
use mathlib.Core.List.{append_assoc, append-nil, map-append}
use oott.Prelude.Text.{Text}
use oott.Model.Device.{Device}
use oott.Model.DeviceEvent.{DeviceEventScanner}
use oott.Utils.Network.{normalize_mac}
use oott.Db.{World, Env, Tables}
use oott.Db.Devices.Keys.{HasUniqueMacs}
use oott.Notify.{notify}
use oott.Notify.Volume.{Adds, notify-Adds}
use oott.Scanners.Pipeline.{record_sighting, record_and_notify}
use oott.Scanners.Pipeline.Registration.{
  registrations, registration, IsGrown, record_sighting-registrations,
}
use oott.Scanners.Pipeline.Silence.{
  IsSilent, IsSilent-trans, IsSilent-refl, record_sighting-IsSilent,
}
use oott.Scanners.Polling.{sight_all}

-- A device that nobody has registered.
abbrev pub IsUnowned : Device → Type 0
IsUnowned d = (d.is_registered ≡ false) × (d.owner ≡ [])

abbrev pub AllUnowned : List Device → Type 0
AllUnowned [] = Unit
AllUnowned (d ∷ ds) = IsUnowned d × AllUnowned ds

abbrev pub unowned : Text → Text × Bool × Text
unowned mac = (mac, false, [])

-- The devices before, as they were registered, and behind them some that nobody has registered, at
-- most so many.
abbrev pub IsRecruited : ℕ → World → World → Type 0
IsRecruited n w w' =
    (macs : List Text) × (registrations w' ≡ registrations w ++ map unowned macs)
    × (length macs ≤ n)

pub IsRecruited-same :
    (n : ℕ) (w w' : World) → w'.tables.devices ≡ w.tables.devices → IsRecruited n w w'
IsRecruited-same n w w' e = ([], rw e (sym (append-nil (registrations w))), omega arith)

pub IsRecruited-trans :
    (m n k : ℕ) (u v w : World)
    → m + n ≤ k
    → IsRecruited m u v
    → IsRecruited n v w
    → IsRecruited k u w
IsRecruited-trans m n l u v w le (xs, e, h) (ys, f, k) = (
  xs ++ ys,
  ground (
    arith,
    e,
    f,
    map-append unowned xs ys,
    append_assoc (registrations u) (map unowned xs) (map unowned ys),
  ),
  omega (arith, h, k, length-append xs ys),
)

grown-IsRecruited :
    (d : Device) (w w' : World)
    → IsUnowned d
    → IsGrown d (registrations w) (registrations w')
    → IsRecruited 1 w w'
grown-IsRecruited d w w' u (inl e) =
    ([], ground (arith, e, append-nil (registrations w)), omega arith)
grown-IsRecruited d w w' (r, o) (inr e) =
    (normalize_mac d.mac_address ∷ [], rw (e, r, o) refl, omega arith)

module _ (env : Env) where
  sight_all-IsSilent :
      (s : DeviceEventScanner) (ds : List Device) (w : World) → IsSilent w (sight_all env s ds w).1
  unfolding sight_all
  sight_all-IsSilent s [] w = IsSilent-refl w
  sight_all-IsSilent s (d ∷ ds) w =
      IsSilent-trans (record_sighting-IsSilent env d s w)
        (sight_all-IsSilent s ds (record_sighting env d s w).1)

  sight_all-IsRecruited :
      (s : DeviceEventScanner) (ds : List Device) (w : World)
      → AllUnowned ds
      → IsRecruited (length ds) w (sight_all env s ds w).1
  unfolding sight_all
  sight_all-IsRecruited s [] w u = IsRecruited-same 0 w w refl
  sight_all-IsRecruited s (d ∷ ds) w (u, us) =
      let v = (record_sighting env d s w).1 in
      IsRecruited-trans 1 (length ds) (suc (length ds)) w v (sight_all env s ds v).1 (omega arith)
        (grown-IsRecruited d w v u (record_sighting-registrations env d s w))
        (sight_all-IsRecruited s ds v us)

-- What a round of a scanner does to a world: at most so many devices are added, none of them
-- registered; no stored registration changes; at most three notifications and three requests are
-- added; and the bounds and keys of the state hold on.
pub record IsSurveyed (n : ℕ) (w w' : World) : Type 0 where
  pub recruited : IsRecruited n w w'
  pub notifications : length w'.tables.notifications ≤ length w.tables.notifications + 3
  pub queue : length w'.queue ≤ length w.queue + 3
  pub bounded : length w.queue ≤ 100 → length w'.queue ≤ 100
  pub unique : HasUniqueMacs w.tables.devices → HasUniqueMacs w'.tables.devices

-- Two worlds with the same tables and the same queue.
pub record SameData (w w' : World) : Type 0 where
  pub tables : w'.tables ≡ w.tables
  pub queue : w'.queue ≡ w.queue

surveyed :
    (n : ℕ) (u v w : World) → IsSilent u v → IsRecruited n u v → Adds 3 v w → IsSurveyed n u w
surveyed n u v w h (macs, e, k) a = record {
  recruited = (macs, ap (map registration) a.devices ∙ e, k);
  notifications = ground (arith, a.notifications, h.notifications);
  queue = ground (arith, a.queue, h.queue);
  bounded = λ b. a.bounded (rw h.queue b);
  unique = λ q. rw a.devices (h.unique q);
}

pub IsSurveyed-cong :
    (n : ℕ) (u u' v v' : World)
    → SameData u u'
    → SameData v v'
    → IsSurveyed n u' v
    → IsSurveyed n u v'
IsSurveyed-cong n u u' v v' d e h = record {
  recruited =
      let (macs, f, k) = h.recruited in
      (
        macs,
        ap (λ (t : Tables). map registration t.devices) e.tables
            ∙ (f ∙ ap (λ (t : Tables). map registration t.devices ++ map unowned macs) d.tables),
        k,
      );
  notifications = ground (arith, h.notifications, d.tables, e.tables);
  queue = ground (arith, h.queue, d.queue, e.queue);
  bounded = λ b. rw e.queue (h.bounded (rw d.queue b));
  unique = λ q. rw e.tables (h.unique (rw d.tables q));
}

pub IsSurveyed-same : (n : ℕ) (w w' : World) → SameData w w' → IsSurveyed n w w'
IsSurveyed-same n w w' e = record {
  recruited = IsRecruited-same n w w' (ap (λ t. t.devices) e.tables);
  notifications = ground (arith, e.tables);
  queue = ground (arith, e.queue);
  bounded = λ b. rw e.queue b;
  unique = λ q. rw e.tables q;
}

module _ (env : Env) (duration_text : ℕ → Text) where
  -- The sightings of a scan, and one call of `notify`.
  pub scan-IsSurveyed :
      (s : DeviceEventScanner) (ds : List Device) (w : World)
      → AllUnowned ds
      → let (changes, v) = sight_all env s ds w in
        IsSurveyed (length ds) w (notify env duration_text changes v)
  scan-IsSurveyed s ds w u =
      let r = sight_all env s ds w in
      surveyed (length ds) w r.1 (notify env duration_text r.0 r.1) (sight_all-IsSilent env s ds w)
        (sight_all-IsRecruited env s ds w u) (notify-Adds env duration_text r.0 r.1)

  -- One sighting, and its call of `notify`.
  pub record_and_notify-IsSurveyed :
      (s : DeviceEventScanner) (d : Device) (w : World)
      → IsUnowned d
      → IsSurveyed 1 w (record_and_notify env duration_text d s w)
  unfolding record_and_notify
  record_and_notify-IsSurveyed s d w u =
      let r = record_sighting env d s w in
      surveyed 1 w r.1 (notify env duration_text r.0 r.1) (record_sighting-IsSilent env d s w)
        (grown-IsRecruited d w r.1 u (record_sighting-registrations env d s w))
        (notify-Adds env duration_text r.0 r.1)
