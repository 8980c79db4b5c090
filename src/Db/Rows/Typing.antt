-- ===== src/Db/Rows/Typing.antt =====
-- Which rows of the events' table can be read.
use oott.Prelude.{some_inj, ◌≡◌, refl, ◌↔◌, Option, none, some, ℕ}
use mathlib.Core.Path.{subst}
use oott.Prelude.Int.{ℤ}
use oott.Prelude.Text.{Text}
use oott.Model.DeviceEvent.{
  DeviceEvent, DeviceEventType, DeviceEventScanner, event_type_text, parse_event_type, scanner_text,
  parse_scanner,
}
use oott.Model.Texts.{event_type_iff, scanner_iff}
use oott.Db.Rows.{
  SqlValue, null, real, blob, integer, text, ◌>>=◌, get_text, get_integer, id_of, event_type_column,
  scanner_column, EventRow, get_time, event_of_row,
}

bind-some :
    {A B : Type 0} (m : Option A) (f : A → Option B) (b : B)
    → (m >>= f) ≡ some b
    → (a : A) × (m ≡ some a) × (f a ≡ some b)
bind-some none f b h = absurd (cc)
bind-some (some a) f b h = (a, refl, h)

get_text-some : (v : SqlValue) (t : Text) → get_text v ≡ some t → v ≡ text t
get_text-some null t h = absurd (cc)
get_text-some (integer z) t h = absurd (cc)
get_text-some (text s) t h = cc
get_text-some real t h = absurd (cc)
get_text-some blob t h = absurd (cc)

get_integer-some : (v : SqlValue) (z : ℤ) → get_integer v ≡ some z → v ≡ integer z
get_integer-some (integer y) z h = cc
get_integer-some null z h = absurd (cc)
get_integer-some (text s) z h = absurd (cc)
get_integer-some real z h = absurd (cc)
get_integer-some blob z h = absurd (cc)

event_type-some :
    (v : SqlValue) (t : DeviceEventType)
    → event_type_column v ≡ some t
    → v ≡ text (event_type_text t)
unfolding event_type_column
event_type-some v t h =
    let (s, e, k) = bind-some (get_text v) parse_event_type t h in
    subst (λ x. v ≡ text x) ((event_type_iff s t).0 k) (get_text-some v s e)

scanner-some :
    (v : SqlValue) (c : DeviceEventScanner) → scanner_column v ≡ some c → v ≡ text (scanner_text c)
unfolding scanner_column
scanner-some v c h =
    let (s, e, k) = bind-some (get_text v) parse_scanner c h in
    subst (λ x. v ≡ text x) ((scanner_iff s c).0 k) (get_text-some v s e)

module _ (parse_utc : Text → Option ℕ) where
  time-some :
      (v : SqlValue) (at : ℕ)
      → get_time parse_utc v ≡ some at
      → (t : Text) × (v ≡ text t) × (parse_utc t ≡ some at)
  time-some v at h =
      let (s, e, k) = bind-some (get_text v) parse_utc at h in (s, get_text-some v s e, k)

  -- The columns of an event's row have their types: an integer, and texts, of which one is that of a
  -- time and two are those of the type and of the scanner.
  abbrev pub IsRowOf : EventRow → DeviceEvent → Type 0
  IsRowOf r e =
      (z : ℤ) × (t : Text) × (r.id ≡ integer z)
      × (e.id ≡ id_of z)
      × (r.created_on ≡ text t)
      × (parse_utc t ≡ some e.created_on)
      × (r.mac_address ≡ text e.mac_address)
      × (r.event_type ≡ text (event_type_text e.event_type))
      × (r.ipv4_address ≡ text e.ipv4_address)
      × (r.vendor ≡ text e.vendor)
      × (r.scanner ≡ text (scanner_text e.scanner))

  typed : (r : EventRow) (e : DeviceEvent) → event_of_row parse_utc r ≡ some e → IsRowOf r e
  unfolding event_of_row
  typed r e h =
      let (z, hz, h₁) = bind-some (get_integer r.id) _ e h in
      let (mac, hm, h₂) = bind-some (get_text r.mac_address) _ e h₁ in
      let (at, ha, h₃) = bind-some (get_time parse_utc r.created_on) _ e h₂ in
      let (kind, hk, h₄) = bind-some (event_type_column r.event_type) _ e h₃ in
      let (ip, hi, h₅) = bind-some (get_text r.ipv4_address) _ e h₄ in
      let (vendor, hv, h₆) = bind-some (get_text r.vendor) _ e h₅ in
      let (scanner, hs, h₇) = bind-some (scanner_column r.scanner) _ e h₆ in
      let (t, ht, hp) = time-some r.created_on at ha in
      subst (IsRowOf r) (some_inj h₇) (
        z,
        t,
        get_integer-some r.id z hz,
        refl,
        ht,
        hp,
        get_text-some r.mac_address mac hm,
        event_type-some r.event_type kind hk,
        get_text-some r.ipv4_address ip hi,
        get_text-some r.vendor vendor hv,
        scanner-some r.scanner scanner hs,
      )

  read_back : (r : EventRow) (e : DeviceEvent) → IsRowOf r e → event_of_row parse_utc r ≡ some e
  unfolding event_of_row event_type_column scanner_column
  read_back r e (z, t, hz, hid, ht, hp, hm, hk, hi, hv, hs) =
      rw (hz, hm, ht, hk, hi, hv, hs, get_time)
        (rw hp (
          rw
            (
              (event_type_iff (event_type_text e.event_type) e.event_type).1 refl,
              (scanner_iff (scanner_text e.scanner) e.scanner).1 refl,
              ← hid,
            )
            refl))

  -- A row of the table of events can be read as an event exactly if its id is an integer and all
  -- other columns are texts, that of its time is one that can be read, those of its type and its
  -- scanner are the texts that are written for them, and the event has these values.
  pub event_of_row_iff :
      (r : EventRow) (e : DeviceEvent) → (event_of_row parse_utc r ≡ some e) ↔ IsRowOf r e
  event_of_row_iff r e = (typed r e, read_back r e)
