-- ===== src/Db/Paging.antt =====
-- The lists of device events and of notifications (backend/src/db/device_events.rs and
-- notifications.rs): pages of the matching rows in their order.
use oott.Prelude.{
  ℕ, Bool, true, ◌&&◌, ◌||◌, ◌≡◌, Option, List, keep, length, arith, refl, ltb, leb, ◌==◌,
  unwrap_or, none, some, [], ◌∷◌,
}
use mathlib.Core.List.{Perm}
use mathlib.Core.Path.{fun_ext}
use oott.Model.DeviceEvent.{DeviceEvent}
use oott.Model.Notification.{Notification}
use oott.Prelude.Int.{ℤ}
use oott.Prelude.Text.{Text}
use oott.Db.Sql.{text_ge, order_by, apply_paging}
use oott.Db.Chronology.{IsChronological}
use oott.Db.Sorting.{IsOrdered, order_by-Perm, order_by-IsOrdered}
use oott.Db.Devices.Listing.{passes}
use oott.Db.DeviceEvents as Events
use oott.Db.DeviceEvents.{of_device, event_before}
use oott.Db.Notifications as Notices
use oott.Db.Notifications.{has_flag, newer}
use oott.Db.State.{World, Env, Outcome, Result, ok, err}

-- The newest first, and among events of one time the one with the larger id.
abbrev pub newest_first : DeviceEvent → DeviceEvent → Bool
newest_first a b =
    ltb b.created_on a.created_on
    || (b.created_on == a.created_on && leb (unwrap_or 0 b.id) (unwrap_or 0 a.id))

abbrev pub no_older : Notification → Notification → Bool
no_older a b = leb b.created_on a.created_on

newest_first_total : (a b : DeviceEvent) → (newest_first a b || newest_first b a) ≡ true
newest_first_total a b = ground arith

no_older_total : (a b : Notification) → (no_older a b || no_older b a) ≡ true
no_older_total a b = ground arith

-- A page of a list that holds these rows, each once, in this order.
abbrev pub IsPageOf : {A : Type 0} → (A → A → Bool) → List A → Option ℤ → Option ℤ → List A → Type 0
IsPageOf {A} before rows page_offset page_limit items =
    (all : List A) × Perm all rows
    × IsOrdered before all
    × (items ≡ apply_paging page_offset page_limit all)

page_of :
    {A : Type 0} (before : A → A → Bool) (rows : List A) (page_offset page_limit : Option ℤ)
    → ((x y : A) → (before x y || before y x) ≡ true)
    → IsPageOf before rows page_offset page_limit
        (apply_paging page_offset page_limit (order_by before rows))
page_of before rows page_offset page_limit total =
    (order_by before rows, order_by-Perm before rows, order_by-IsOrdered before total rows, refl)

-- The events that a request asks for: of one device, at or after a time.
abbrev pub matching_events : Option Text → Option ℕ → World → List DeviceEvent
matching_events mac_address created_from w =
    keep (λ e. of_device mac_address e && passes (λ at. leb at e.created_on) created_from)
      w.tables.device_events

abbrev pub matching_notifications : Option Bool → World → List Notification
matching_notifications is_new w = keep (has_flag is_new) w.tables.notifications

module _ (env : Env) (chronological : IsChronological env) where
  event_before-newest_first : event_before env ≡ newest_first
  unfolding event_before
  event_before-newest_first = fun_ext λ a. fun_ext λ b. ground (
    arith,
    chronological.stored_order a.created_on b.created_on,
    chronological.stored_order b.created_on a.created_on,
  )

  newer-no_older : newer env ≡ no_older
  unfolding newer
  newer-no_older = fun_ext λ a. fun_ext λ b. chronological.stored_order b.created_on a.created_on

  since_text :
      (created_from : Option ℕ) (e : DeviceEvent)
      → passes (λ at. text_ge (env.to_rfc3339_nanos e.created_on) (env.to_rfc3339 at)) created_from
        ≡ passes (λ at. leb at e.created_on) created_from
  since_text none e = refl
  since_text (some at) e = chronological.bound_order at e.created_on

  keep_since :
      (mac_address : Option Text) (created_from : Option ℕ) (es : List DeviceEvent)
      → keep
          (λ e.
            of_device mac_address e
            && passes
                (λ at. text_ge (env.to_rfc3339_nanos e.created_on) (env.to_rfc3339 at))
                created_from)
          es
        ≡ keep (λ e. of_device mac_address e && passes (λ at. leb at e.created_on) created_from) es
  keep_since mac_address created_from [] = refl
  keep_since mac_address created_from (e ∷ es) =
      ground (arith, since_text created_from e, keep_since mac_address created_from es)

  module _ (page_offset page_limit : Option ℤ) (w : World) where
    events-page :
        (mac_address : Option Text) (created_from : Option ℕ)
        → Outcome Unit
            (λ items.
              items
              ≡ apply_paging page_offset page_limit
                  (order_by newest_first (matching_events mac_address created_from w)))
            (Events.list env mac_address created_from page_offset page_limit w).0
    unfolding Events.list
    events-page mac_address created_from = ground (
      arith,
      event_before-newest_first,
      keep_since mac_address created_from w.tables.device_events,
    )

    notifications-page :
        (is_new : Option Bool)
        → Outcome Unit
            (λ items.
              items
              ≡ apply_paging page_offset page_limit
                  (order_by no_older (matching_notifications is_new w)))
            (Notices.list env is_new page_offset page_limit w).0
    unfolding Notices.list
    notifications-page is_new = ground (arith, newer-no_older)

to_page :
    {E A : Type 0} (before : A → A → Bool) (rows : List A) (page_offset page_limit : Option ℤ)
    (r : Result E (List A))
    → ((x y : A) → (before x y || before y x) ≡ true)
    → Outcome Unit (λ items. items ≡ apply_paging page_offset page_limit (order_by before rows)) r
    → Outcome Unit (IsPageOf before rows page_offset page_limit) r
to_page before rows page_offset page_limit (ok items) total e =
    rw e (page_of before rows page_offset page_limit total)
to_page before rows page_offset page_limit (err e) total h = tt

-- Where the texts of times sort as the times do: whatever the request, a list of device events is a
-- page of a list that holds exactly the events of the device, in any case of its address, at or
-- after the time asked for, the newest first and of one time the one with the larger id first; a
-- list of notifications is a page of a list that holds exactly those with the flag, the newest
-- first; or the call failed. The count of notifications, where it did not fail, is the length of
-- that list.
pub lists-ArePages :
    (env : Env) (mac_address : Option Text) (created_from : Option ℕ) (is_new : Option Bool)
    (page_offset page_limit : Option ℤ) (w : World)
    → IsChronological env
    → Outcome Unit
        (IsPageOf newest_first (matching_events mac_address created_from w) page_offset page_limit)
        (Events.list env mac_address created_from page_offset page_limit w).0
      × Outcome Unit
          (IsPageOf no_older (matching_notifications is_new w) page_offset page_limit)
          (Notices.list env is_new page_offset page_limit w).0
      × Outcome Unit
          (λ n. n ≡ length (matching_notifications is_new w))
          (Notices.count env is_new w).0
unfolding Notices.count
lists-ArePages env mac_address created_from is_new page_offset page_limit w c = (
  to_page newest_first (matching_events mac_address created_from w) page_offset page_limit _
      newest_first_total (events-page env c page_offset page_limit w mac_address created_from),
  to_page no_older (matching_notifications is_new w) page_offset page_limit _ no_older_total
      (notifications-page env c page_offset page_limit w is_new),
  ground arith,
)
