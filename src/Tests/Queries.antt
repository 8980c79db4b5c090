-- ===== src/Tests/Queries.antt =====
-- Requests with query parameters, and the vendors of a small database.
use oott.Prelude.{
  ℕ, ◌≡◌, refl, ◌&&◌, Option, none, some, List, [], ◌∷◌, length, take, drop, if◌then◌else◌, leb→le,
  arith, Bool-cases, inl, inr, ◌≤◌,
}
use mathlib.Core.List.{Perm, Permᴰ}
use oott.Prelude.Int.{pos}
use oott.Prelude.Text.{Text, bytes, decimal, text_eq, text_eq_sound, is_empty}
use oott.Prelude.Utf8.{trim_end_matches}
use mathlib.Core.Path.{subst}
use oott.Model.Device.{Device, DeviceListResponse}
use oott.Db.{Outcome}
use oott.Db.DeviceEvents as Events
use oott.Db.Notifications as Notices
use oott.Db.Sorting.{IsOrdered}
use oott.Db.Devices.Ordering.{matching, device_order}
use oott.Db.Paging.{
  IsPageOf, newest_first, no_older, matching_events, matching_notifications, lists-ArePages,
}
use oott.Utils.Network.{is_locally_administered}
use oott.Scanners.Enrichment.{Data, deduce_vendor, mac_prefix}
use oott.Scanners.Enrichment.Loading.{MacRecord, service_key, load}
use oott.Scanners.Enrichment.Loading.Vendors.{
  HasDistinctKeys, entries, vendor_of_records, vendor_of_services, deduce_vendor_loaded,
}
use oott.Web.Http.{json}
use oott.Web.Query.{Params, positive_i64, negative_i64, parse_i64}
use oott.Web.Query.Numbers.{parse_i64-decimal}
use oott.Web.Requests.{device_filters, devices_list}
use oott.Web.Requests.Answers.{devices_list_answers}
use oott.Tests.Fixture.{sound_env, sound_env-no_fault, sound_env-IsChronological, network}

lists-ArePages_example :
    Outcome Unit
      (IsPageOf newest_first
        (matching_events (some (bytes "AA:BB:CC:00:00:01")) (some 50) network)
        (some (pos 0))
        (some (pos 5)))
      (Events.list sound_env
        (some (bytes "AA:BB:CC:00:00:01"))
        (some 50)
        (some (pos 0))
        (some (pos 5))
        network).0
    × Outcome Unit
        (IsPageOf no_older (matching_notifications none network) (some (pos 0)) (some (pos 5)))
        (Notices.list sound_env none (some (pos 0)) (some (pos 5)) network).0
    × Outcome Unit
        (λ n. n ≡ length (matching_notifications none network))
        (Notices.count sound_env none network).0
lists-ArePages_example =
    lists-ArePages sound_env (some (bytes "AA:BB:CC:00:00:01")) (some 50) none (some (pos 0))
      (some (pos 5)) network sound_env-IsChronological

parse_i64-decimal_example :
    (parse_i64 (decimal 1024) ≡ positive_i64 1024)
    × (parse_i64 (b'-' ∷ decimal 1024) ≡ negative_i64 1024)
parse_i64-decimal_example = parse_i64-decimal 1024

-- `?page_offset=1&page_limit=10&sort_by=name`
abbrev params : Params
params t =
    if text_eq t (bytes "page_offset")
    then some (decimal 1)
    else if text_eq t (bytes "page_limit")
    then some (decimal 10)
    else if text_eq t (bytes "sort_by")
    then some (bytes "name")
    else none

abbrev no_date : Text → Option ℕ
no_date t = none

devices_list_answers_example :
    (r : DeviceListResponse) × (all : List Device) × ((devices_list sound_env no_date params
        network).0
      ≡ json r)
    × Perm all (matching sound_env (device_filters no_date params) network)
    × IsOrdered
        (device_order sound_env (params (bytes "sort_by")) (params (bytes "sort_order")))
        all
    × (r.items ≡ take 10 (drop 1 all))
    × (r.total_count ≡ length (matching sound_env (device_filters no_date params) network))
unfolding text_eq
devices_list_answers_example =
    devices_list_answers sound_env no_date params network 1 10 refl refl (omega arith) (omega arith)
      sound_env-no_fault

-- Two services, whose entries may come in either order, and two records of prefixes.
abbrev services : List (Text × Text)
services =
    (bytes "_sonos._tcp.local", bytes "Sonos")
    ∷ (bytes "_googlecast._tcp.local", bytes "Google")
    ∷ []

abbrev swapped : List (Text × Text)
swapped =
    (bytes "_googlecast._tcp.local", bytes "Google")
    ∷ (bytes "_sonos._tcp.local", bytes "Sonos")
    ∷ []

abbrev records : List MacRecord
records =
    record { mac_prefix = bytes "00:00:0C"; vendor_name = bytes "Cisco" }
    ∷ record { mac_prefix = bytes "AC:DE:48"; vendor_name = bytes "Private" }
    ∷ []

abbrev same_case : Text → Text
same_case t = t

services-HasDistinctKeys : HasDistinctKeys (service_key same_case) services
unfolding text_eq trim_end_matches
services-HasDistinctKeys k =
    let sonos = service_key same_case (bytes "_sonos._tcp.local") in
    elim (Bool-cases (text_eq sonos k)) [
      | inl e ↦
          subst (λ (j : Text). length (entries (service_key same_case) j services) ≤ 1)
            (text_eq_sound sonos k e) (leb→le 1 1 refl)
      | inr e ↦ ground arith
    ]

deduce_vendor_loaded_example :
    (d : Data) × (load same_case same_case (record {
      mac_vendors = some records;
      service_vendors = some swapped;
      vendor_device_types = some [];
    })
      ≡ some d)
    × (deduce_vendor d (bytes "02:11:22:33:44:55") (bytes "_googlecast._tcp.local." ∷ []) ≡ (
        let vendor = vendor_of_records same_case records (mac_prefix (bytes "02:11:22:33:44:55")) in
        if is_empty vendor && is_locally_administered (bytes "02:11:22:33:44:55")
        then vendor_of_services same_case services (bytes "_googlecast._tcp.local." ∷ [])
        else vendor))
deduce_vendor_loaded_example =
    deduce_vendor_loaded same_case same_case records services swapped [] (bytes "02:11:22:33:44:55")
      (bytes "_googlecast._tcp.local." ∷ []) (Permᴰ.swap refl refl) services-HasDistinctKeys
