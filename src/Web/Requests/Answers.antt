-- ===== src/Web/Requests/Answers.antt =====
-- What a request for a page of the devices is answered.
use oott.Prelude.{
  ℕ, ◌<◌, ◌≡◌, refl, ◌∙◌, ap, false, Option, none, some, List, length, take, drop, arith, suc,
}
use mathlib.Core.List.{Perm}
use oott.Prelude.Int.{ℤ, pos}
use oott.Prelude.Text.{Text, bytes, decimal}
use oott.Model.Device.{Device, DeviceListResponse}
use oott.Db.{World, Env, order_by, apply_paging}
use oott.Db.Sorting.{IsOrdered, order_by-Perm, order_by-IsOrdered}
use oott.Db.Devices.Listing.{
  DeviceFilters, list_devices, count_devices, resolve_sort_column, resolve_sort_direction,
}
use oott.Db.Devices.Ordering.{matching, device_order, row_before_total}
use oott.Web.Http.{json}
use oott.Web.Devices as Devices
use oott.Web.Query.{Params, parse_parameter, parse_i64, bind_option, positive_i64, i64_limit}
use oott.Web.Query.Numbers.{parse_i64-decimal}
use oott.Web.Requests.{device_filters, devices_list}

module _ (env : Env) (sound : (n : ℕ) → env.db_fails n ≡ false) where
  -- With no database fault the handler answers the page and the count.
  list_sound :
      (f : DeviceFilters) (sort_by sort_order : Option Text) (page_offset page_limit : Option ℤ)
      (w : World)
      → (Devices.list env f sort_by sort_order page_offset page_limit w).0
        ≡ json (record {
          items =
              apply_paging page_offset page_limit
                (order_by (device_order env sort_by sort_order) (matching env f w));
          total_count = length (matching env f w);
        })
  unfolding Devices.list Devices.then_count list_devices count_devices
  list_sound f sort_by sort_order page_offset page_limit w = ground (
    arith,
    sound w.db_calls,
    sound (suc w.db_calls),
    sound (suc (suc w.db_calls)),
    sound (suc (suc (suc w.db_calls))),
  )

below : (n : ℕ) → n < i64_limit → positive_i64 n ≡ some (pos n)
below n h = ground arith

text_param : (params : Params) (key : Text) → parse_parameter some params key ≡ params key
unfolding parse_parameter
text_param params key = bind-some (params key)
  where
    bind-some : (o : Option Text) → bind_option some o ≡ o
    bind-some none = refl
    bind-some (some t) = refl

-- A parameter in decimal, below the bound, is read as the number.
page_number :
    (params : Params) (key : Text) (n : ℕ)
    → params key ≡ some (decimal n)
    → n < i64_limit
    → parse_parameter parse_i64 params key ≡ some (pos n)
unfolding parse_parameter
page_number params key n e h = ap (bind_option parse_i64) e ∙ (parse_i64-decimal n).0 ∙ below n h

-- With no database fault, a request for a page of the devices whose offset and limit are written in
-- decimal, below 2^63, is answered with the devices between these places of a list that holds
-- exactly the devices that match the other parameters, in the order asked for, and with the
-- number of these devices.
pub devices_list_answers :
    (env : Env) (parse_from_rfc3339 : Text → Option ℕ) (params : Params) (w : World)
    (offset size : ℕ)
    → params (bytes "page_offset") ≡ some (decimal offset)
    → params (bytes "page_limit") ≡ some (decimal size)
    → offset < i64_limit
    → size < i64_limit
    → ((n : ℕ) → env.db_fails n ≡ false)
    → (r : DeviceListResponse) × (all : List Device) × ((devices_list env parse_from_rfc3339 params
          w).0
        ≡ json r)
      × Perm all (matching env (device_filters parse_from_rfc3339 params) w)
      × IsOrdered (device_order env (params (bytes "sort_by")) (params (bytes "sort_order"))) all
      × (r.items ≡ take size (drop offset all))
      × (r.total_count ≡ length (matching env (device_filters parse_from_rfc3339 params) w))
unfolding devices_list
devices_list_answers env parse_from_rfc3339 params w offset size ho hs lo ls sound =
    let f = device_filters parse_from_rfc3339 params in
    let sort_by = params (bytes "sort_by") in
    let sort_order = params (bytes "sort_order") in
    let before = device_order env sort_by sort_order in
    let rows = matching env f w in
    (
      _,
      order_by before rows,
      rw
          (
            text_param params (bytes "sort_by"),
            text_param params (bytes "sort_order"),
            page_number params (bytes "page_offset") offset ho lo,
            page_number params (bytes "page_limit") size hs ls,
          )
          (list_sound env sound f sort_by sort_order (some (pos offset)) (some (pos size)) w),
      order_by-Perm before rows,
      order_by-IsOrdered before
          (row_before_total env (resolve_sort_column sort_by) (resolve_sort_direction sort_order))
          rows,
      refl,
      refl,
    )
