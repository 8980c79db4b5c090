-- ===== src/Scanners/PassiveStatus/Counting.antt =====
-- How a passive scanner counts devices: each once, at its last sighting.
use oott.Prelude.{
  ℕ, ◌-◌, Bool, false, ◌≡◌, refl, Option, none, some, List, [], ◌∷◌, any, keep, length, leb, arith,
  any-keep, if◌then◌else◌,
}
use oott.Prelude.Text.{Text, text_eq, text_eq_iff}
use oott.Scanners.PassiveStatus.{
  PassiveStatus, new_status, set_listening, insert_sighting, record_discovery, snapshot,
  recent_window,
}

abbrev pub sighted : Text → Text × ℕ → Bool
sighted mac p = text_eq p.0 mac

-- No MAC is in the map twice.
abbrev pub HasUniqueKeys : List (Text × ℕ) → Type 0
HasUniqueKeys [] = Unit
HasUniqueKeys (p ∷ ps) = (any (sighted p.0) ps ≡ false) × HasUniqueKeys ps

-- The time of the last sighting of a MAC.
abbrev pub latest : Text → List (Text × ℕ) → Option ℕ
latest mac [] = none
latest mac ((m, at) ∷ ps) = if text_eq m mac then some at else latest mac ps

any-insert_sighting :
    (m mac : Text) (at : ℕ) (ps : List (Text × ℕ))
    → text_eq mac m ≡ false
    → any (sighted m) (insert_sighting mac at ps) ≡ any (sighted m) ps
unfolding insert_sighting
any-insert_sighting m mac at [] h = ground arith
any-insert_sighting m mac at ((k, t) ∷ ps) h = ground (arith, any-insert_sighting m mac at ps h)

insert_sighting-HasUniqueKeys :
    (mac : Text) (at : ℕ) (ps : List (Text × ℕ))
    → HasUniqueKeys ps
    → HasUniqueKeys (insert_sighting mac at ps)
unfolding insert_sighting
insert_sighting-HasUniqueKeys mac at [] h = (refl, tt)
insert_sighting-HasUniqueKeys mac at ((k, t) ∷ ps) (u, h) = ground (
  arith,
  insert_sighting-HasUniqueKeys mac at ps h,
  any-insert_sighting k mac at ps,
  text_eq_iff k mac,
  text_eq_iff mac k,
)

keep-HasUniqueKeys :
    (q : Text × ℕ → Bool) (ps : List (Text × ℕ)) → HasUniqueKeys ps → HasUniqueKeys (keep q ps)
keep-HasUniqueKeys q [] h = tt
keep-HasUniqueKeys q (p ∷ ps) (u, h) =
    ground (arith, keep-HasUniqueKeys q ps h, any-keep (sighted p.0) q ps u)

latest-insert_sighting :
    (m mac : Text) (at : ℕ) (ps : List (Text × ℕ))
    → latest m (insert_sighting mac at ps) ≡ (if text_eq mac m then some at else latest m ps)
unfolding insert_sighting
latest-insert_sighting m mac at [] = refl
latest-insert_sighting m mac at ((k, t) ∷ ps) = ground (
  arith,
  latest-insert_sighting m mac at ps,
  text_eq_iff k mac,
  text_eq_iff mac m,
  text_eq_iff k m,
)

-- The steps of a passive scanner's status: it starts new; the scanner begins to listen, discovers a
-- device, or the status is read, each at some time.
pub data IsReachable : PassiveStatus → Type 0 where
  start : IsReachable new_status
  listens : (at : ℕ) {s : PassiveStatus} → IsReachable s → IsReachable (set_listening at s)
  discovers :
      (at : ℕ) (mac : Text) {s : PassiveStatus}
      → IsReachable s
      → IsReachable (record_discovery at mac s)
  reads : (at : ℕ) {s : PassiveStatus} → IsReachable s → IsReachable (snapshot at s).1

reachable-HasUniqueKeys : (s : PassiveStatus) → IsReachable s → HasUniqueKeys s.recent_sightings
unfolding new_status set_listening record_discovery snapshot
reachable-HasUniqueKeys s start = tt
reachable-HasUniqueKeys s (listens at {s = r} h) = reachable-HasUniqueKeys r h
reachable-HasUniqueKeys s (discovers at mac {s = r} h) =
    insert_sighting-HasUniqueKeys mac at r.recent_sightings (reachable-HasUniqueKeys r h)
reachable-HasUniqueKeys s (reads at {s = r} h) =
    keep-HasUniqueKeys (λ p. leb (at - recent_window) p.1) r.recent_sightings
      (reachable-HasUniqueKeys r h)

-- In every reachable status a discovery sets the time of its MAC and of no other, and a reading of
-- the status counts what is left within the window of an hour, in which no MAC is twice.
pub reachable_counting :
    (s : PassiveStatus) (mac m : Text) (at : ℕ)
    → IsReachable s
    → (latest m (record_discovery at mac s).recent_sightings
        ≡ (if text_eq mac m then some at else latest m s.recent_sightings))
      × ((snapshot at s).0.devices_last_hour ≡ length (snapshot at s).1.recent_sightings)
      × ((snapshot at s).1.recent_sightings
          ≡ keep (λ p. leb (at - recent_window) p.1) s.recent_sightings)
      × HasUniqueKeys (snapshot at s).1.recent_sightings
unfolding record_discovery snapshot
reachable_counting s mac m at h = (
  latest-insert_sighting m mac at s.recent_sightings,
  refl,
  refl,
  keep-HasUniqueKeys (λ p. leb (at - recent_window) p.1) s.recent_sightings
      (reachable-HasUniqueKeys s h),
)
