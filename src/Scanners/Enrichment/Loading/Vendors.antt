-- ===== src/Scanners/Enrichment/Loading/Vendors.antt =====
-- The vendor that is deduced with the databases loaded from their files.
use oott.Prelude.{
  ◌≤◌, Bool, ◌&&◌, ◌≡◌, refl, sym, ap, ◌∙◌, Option, none, some, List, [], ◌∷◌, keep, length, arith,
  if◌then◌else◌, unwrap_or,
}
use mathlib.Core.List.{Permᴰ}
use oott.Prelude.Text.{Text, text_eq, is_empty}
use oott.Utils.Network.{is_locally_administered}
use oott.Scanners.Enrichment.{
  Data, find_mac_vendor, normalize_service, find_service_vendor, mac_prefix, deduce_vendor,
}
use oott.Scanners.Enrichment.Loading.{
  MacRecord, TextMap, insert, fill, collect, no_entries, keep_key, service_key, load,
}

module _ {A : Type 0} (value : A → Text) where
  -- The value of the last item, if there is one.
  abbrev pub last_or : List A → Option Text → Option Text
  last_or [] o = o
  last_or (x ∷ xs) o = last_or xs (some (value x))

fill-last :
    (up : Text → Text) (records : List MacRecord) (m : TextMap) (k : Text)
    → fill up records m k
      ≡ last_or (λ r. r.vendor_name) (keep (λ r. text_eq (up r.mac_prefix) k) records) (m k)
unfolding fill insert
fill-last up [] m k = refl
fill-last up (r ∷ rs) m k =
    ground (arith, fill-last up rs (insert (up r.mac_prefix) r.vendor_name m) k)

-- The entries of a key.
abbrev pub entries : (Text → Text) → Text → List (Text × Text) → List (Text × Text)
entries key k raw = keep (λ e. text_eq (key e.0) k) raw

collect-last :
    (key : Text → Text) (raw : List (Text × Text)) (m : TextMap) (k : Text)
    → collect key raw m k ≡ last_or (λ e. e.1) (entries key k raw) (m k)
unfolding collect insert
collect-last key [] m k = refl
collect-last key ((j, v) ∷ rest) m k = ground (arith, collect-last key rest (insert (key j) v m) k)

-- Where at most one item passes a test, the items that pass are the same in any order.
keep-perm :
    {A : Type 0} (p : A → Bool) {xs ys : List A}
    → Permᴰ xs ys
    → length (keep p xs) ≤ 1
    → keep p xs ≡ keep p ys
keep-perm p Permᴰ.nil h = refl
keep-perm p (Permᴰ.cons {a = a} {b = b} {l₁ = xs} {l₂ = ys} e q) h =
    ground (arith, ap p e, keep-perm p q)
keep-perm p (Permᴰ.swap {a = a} {b = b} {a' = a'} {b' = b'} e f) h = ground (arith, ap p e, ap p f)
keep-perm p (Permᴰ.trans q r) h = let e = keep-perm p q h in e ∙ keep-perm p r (rw (← e) h)

-- No two entries have the same key.
abbrev pub HasDistinctKeys : (Text → Text) → List (Text × Text) → Type 0
HasDistinctKeys key raw = (k : Text) → length (entries key k raw) ≤ 1

-- The vendor of the last record with a prefix, in any case.
abbrev pub vendor_of_records : (Text → Text) → List MacRecord → Text → Text
vendor_of_records up records prefix =
    unwrap_or [] (
      last_or (λ r. r.vendor_name) (keep (λ r. text_eq (up r.mac_prefix) (up prefix)) records) none)

-- The vendor of the first service that has an entry, up to its case and the dots at its end.
abbrev pub vendor_of_services : (Text → Text) → List (Text × Text) → List Text → Text
vendor_of_services low raw [] = []
vendor_of_services low raw (hint ∷ hints) =
    unwrap_or (vendor_of_services low raw hints)
      (last_or (λ e. e.1) (entries (service_key low) (service_key low hint) raw) none)

module _ (low : Text → Text) (raw raw' : List (Text × Text))
    (same : (k : Text) → entries (service_key low) k raw ≡ entries (service_key low) k raw')
    (d : Data) (lows : d.to_lowercase ≡ low)
    (loaded : d.service_vendors ≡ collect (service_key low) raw' no_entries) where
  service-lookup :
      (hint : Text)
      → d.service_vendors (normalize_service d hint)
        ≡ last_or (λ e. e.1) (entries (service_key low) (service_key low hint) raw) none
  unfolding normalize_service
  service-lookup hint =
      rw (lows, loaded)
        (collect-last (service_key low) raw' no_entries (service_key low hint)
          ∙ ap (λ l. last_or (λ e. e.1) l none) (sym (same (service_key low hint))))

  services-eq : (hints : List Text) → find_service_vendor d hints ≡ vendor_of_services low raw hints
  unfolding find_service_vendor
  services-eq [] = refl
  services-eq (hint ∷ hints) = ground (arith, service-lookup hint, services-eq hints)

mac-eq :
    (up : Text → Text) (records : List MacRecord) (d : Data) (prefix : Text)
    → d.to_uppercase ≡ up
    → d.mac_vendors ≡ fill up records no_entries
    → find_mac_vendor d prefix ≡ vendor_of_records up records prefix
unfolding find_mac_vendor
mac-eq up records d prefix ups loaded =
    rw (ups, loaded) (ap (unwrap_or []) (fill-last up records no_entries (up prefix)))

-- The databases loaded from the records of MAC prefixes, from the entries of services in some order
-- and from those of device types exist, and the vendor deduced with them is that of the last record
-- with the prefix of the MAC address, in any case, if that is not empty or the address is globally
-- administered; and else that of the first service that has an entry, up to case and final dots:
-- the order in which the entries of services come makes no difference where no two have the same key.
pub deduce_vendor_loaded :
    (up low : Text → Text) (records : List MacRecord) (raw raw' types : List (Text × Text))
    (mac : Text) (hints : List Text)
    → Permᴰ raw raw'
    → HasDistinctKeys (service_key low) raw
    → (d : Data) × (load up low (record {
      mac_vendors = some records;
      service_vendors = some raw';
      vendor_device_types = some types;
    })
        ≡ some d)
      × (deduce_vendor d mac hints ≡ (
          let vendor = vendor_of_records up records (mac_prefix mac) in
          if is_empty vendor && is_locally_administered mac
          then vendor_of_services low raw hints
          else vendor))
unfolding load deduce_vendor
deduce_vendor_loaded up low records raw raw' types mac hints permuted distinct =
    let same =
      λ (k : Text). keep-perm (λ e. text_eq (service_key low e.0) k) permuted (distinct k) in
    let d : Data = record {
      mac_vendors = fill up records no_entries;
      service_vendors = collect (service_key low) raw' no_entries;
      vendor_device_types = collect keep_key types no_entries;
      to_uppercase = up;
      to_lowercase = low;
    } in
    (
      d,
      refl,
      rw (
        mac-eq up records d (mac_prefix mac) refl refl,
        services-eq low raw raw' same d refl refl hints,
      ),
    )
