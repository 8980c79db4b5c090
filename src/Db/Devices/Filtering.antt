-- ===== src/Db/Devices/Filtering.antt =====
-- What the filters of a list of devices keep, by the times themselves.
use oott.Prelude.{
  ℕ, true, ◌&&◌, ◌≡◌, ◌≢◌, sym, ap, ◌∙◌, none, some, ltb, leb, le→leb, leb→le, Bool-cases, inl, inr,
  arith,
}
use oott.Model.Device.{Device}
use oott.Db.State.{Env}
use oott.Db.Sql.{text_le}
use oott.Db.Sorting.{text_le_total, text_le_antisym}
use oott.Db.Chronology.{IsChronological}
use oott.Db.Devices.Listing.{DeviceFilters, build_device_filters, passes}

module _ (env : Env) (chronological : IsChronological env) where
  -- A text of a bound that is a stored text is that of a time at or before the bound.
  same_text : (at seen : ℕ) → env.to_rfc3339_nanos seen ≡ env.to_rfc3339 at → leb seen at ≡ true
  same_text at seen e =
      sym (chronological.stored_order seen at)
      ∙ ap (λ t. text_le t (env.to_rfc3339_nanos at)) e
      ∙ chronological.bound_order at at
      ∙ le→leb at at (omega arith)

  -- A text that is at most that of the bound is of a time before it.
  before :
      (at seen : ℕ)
      → env.to_rfc3339 at ≢ env.to_rfc3339_nanos at
      → text_le (env.to_rfc3339_nanos seen) (env.to_rfc3339 at) ≡ true
      → ltb seen at ≡ true
  before at seen differs h = elim (Bool-cases (leb at seen)) [
    | inr later ↦ ground arith
    | inl reached ↦
        let e =
          text_le_antisym (env.to_rfc3339_nanos seen) (env.to_rfc3339 at) h
            (chronological.bound_order at seen ∙ reached) in
        let same : seen ≡ at =
          omega (arith, leb→le at seen reached, leb→le seen at (same_text at seen e)) in
        absurd (differs (sym e ∙ ap env.to_rfc3339_nanos same))
  ]

  to-eq :
      (at seen : ℕ)
      → env.to_rfc3339 at ≢ env.to_rfc3339_nanos at
      → text_le (env.to_rfc3339_nanos seen) (env.to_rfc3339 at) ≡ ltb seen at
  to-eq at seen differs =
      elim (Bool-cases (text_le (env.to_rfc3339_nanos seen) (env.to_rfc3339 at))) [
        | inl h ↦ h ∙ sym (before at seen differs h)
        | inr h ↦
            let later = chronological.bound_order at seen in
            let total = text_le_total (env.to_rfc3339_nanos seen) (env.to_rfc3339 at) in
            ground (arith, later, total)
      ]

-- The filters but for the times.
abbrev pub without_times : DeviceFilters → DeviceFilters
without_times f = record f { last_seen_from = none; last_seen_to = none }

-- Where the texts of times sort as the times do, and the text of the upper bound is not the text of
-- nine digits of its time, the filters of a list of devices keep exactly those that pass the filters
-- other than the times and were seen at or after the lower bound and before the upper bound: a
-- device that was seen at the upper bound itself is left out.
pub build_device_filters-times :
    (env : Env) (f : DeviceFilters) (from to : ℕ) (d : Device)
    → IsChronological env
    → f.last_seen_from ≡ some from
    → f.last_seen_to ≡ some to
    → env.to_rfc3339 to ≢ env.to_rfc3339_nanos to
    → build_device_filters env f d
      ≡ (build_device_filters env (without_times f) d && leb from d.last_seen && ltb d.last_seen to)
unfolding build_device_filters
build_device_filters-times env f from to d chronological ef et differs =
    let lower = chronological.bound_order from d.last_seen in
    let upper = to-eq env chronological to d.last_seen differs in
    rw (ef, et, passes) (rw (lower, upper) (ground arith))
