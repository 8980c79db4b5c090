-- ===== src/Db/Devices/Wanted.antt =====
-- Which devices the filters of a request keep, and what a page of a list is, in words of their own.
use oott.Prelude.{
  ℕ, suc, zero, ◌≤◌, Bool, true, ◌≡◌, ◌↔◌, ◌⊎◌, inl, inr, refl, sym, ap, ◌∙◌, Option, none, some,
  List, [], ◌∷◌, ◌++◌, length, take, drop, arith,
}
use mathlib.Core.List.{append-nil}
use oott.Prelude.Int.{ℤ, pos, negsuc, pos_part}
use oott.Prelude.Text.{Text, text_eq_iff, nocase_eq, to_ascii_lowercase}
use oott.Model.Device.{Device}
use oott.Db.State.{Env}
use oott.Db.Sql.{text_le, apply_paging}
use oott.Db.Devices.Listing.{DeviceFilters, build_device_filters, passes, bool_eq, like}

-- What a filter wants, if it is there.
abbrev pub Wants : {A : Type 0} → (A → Type 0) → Option A → Type 0
Wants P none = Unit
Wants P (some a) = P a

-- What the filters want of a device: its registration, that it was seen from one time to another by
-- the texts of the times, the owner by a LIKE pattern, and type and vendor up to case.
abbrev pub IsWanted : Env → DeviceFilters → Device → Type 0
IsWanted env f d =
    Wants (λ b. d.is_registered ≡ b) f.is_registered
    × Wants (λ at. text_le (env.to_rfc3339 at) (env.to_rfc3339_nanos d.last_seen) ≡ true)
        f.last_seen_from
    × Wants (λ at. text_le (env.to_rfc3339_nanos d.last_seen) (env.to_rfc3339 at) ≡ true)
        f.last_seen_to
    × Wants (λ o. like (b'%' ∷ (o ++ b'%' ∷ [])) d.owner ≡ true) f.owner
    × Wants (λ k. to_ascii_lowercase d.device_type ≡ to_ascii_lowercase k) f.device_type
    × Wants (λ v. to_ascii_lowercase d.vendor ≡ to_ascii_lowercase v) f.vendor

passes_iff :
    {A : Type 0} (p : A → Bool) (P : A → Type 0) (o : Option A)
    → ((a : A) → (p a ≡ true) ↔ P a)
    → (passes p o ≡ true) ↔ Wants P o
passes_iff p P none h = (λ _. tt, λ _. refl)
passes_iff p P (some a) h = h a

bool_eq_iff : (a b : Bool) → (bool_eq a b ≡ true) ↔ (a ≡ b)
bool_eq_iff a b = ground arith

nocase_iff : (s t : Text) → (nocase_eq s t ≡ true) ↔ (to_ascii_lowercase s ≡ to_ascii_lowercase t)
unfolding nocase_eq
nocase_iff s t = text_eq_iff (to_ascii_lowercase s) (to_ascii_lowercase t)

same_iff : (b : Bool) → (b ≡ true) ↔ (b ≡ true)
same_iff b = (λ h. h, λ h. h)

-- The filters keep exactly the devices that are wanted.
pub build_device_filters_iff :
    (env : Env) (f : DeviceFilters) (d : Device)
    → (build_device_filters env f d ≡ true) ↔ IsWanted env f d
unfolding build_device_filters
build_device_filters_iff env f d =
    let registered =
      passes_iff _ (λ b. d.is_registered ≡ b) f.is_registered (bool_eq_iff d.is_registered) in
    let from =
      passes_iff _ (λ at. text_le (env.to_rfc3339 at) (env.to_rfc3339_nanos d.last_seen) ≡ true)
        f.last_seen_from (λ at. same_iff _) in
    let to =
      passes_iff _ (λ at. text_le (env.to_rfc3339_nanos d.last_seen) (env.to_rfc3339 at) ≡ true)
        f.last_seen_to (λ at. same_iff _) in
    let owned =
      passes_iff _ (λ o. like (b'%' ∷ (o ++ b'%' ∷ [])) d.owner ≡ true) f.owner (λ o. same_iff _) in
    let typed =
      passes_iff _ (λ k. to_ascii_lowercase d.device_type ≡ to_ascii_lowercase k) f.device_type
        (nocase_iff d.device_type) in
    let sold =
      passes_iff _ (λ v. to_ascii_lowercase d.vendor ≡ to_ascii_lowercase v) f.vendor
        (nocase_iff d.vendor) in
    ground (arith, registered, from, to, owned, typed, sold)

-- What a page holds of a list: as many rows as the limit asks for, if there are so many, behind as
-- many as the offset skips; without both of them, all.
abbrev pub IsLimited : {A : Type 0} → ℤ → List A → List A → Type 0
IsLimited (pos n) items after = (length items ≤ n) × ((after ≡ []) ⊎ (length items ≡ n))
IsLimited (negsuc n) items after = after ≡ []

abbrev pub IsSlice : {A : Type 0} → Option ℤ → Option ℤ → List A → List A → Type 0
IsSlice {A} (some page_offset) (some page_limit) all items =
    (before : List A) × (after : List A) × (all ≡ before ++ (items ++ after))
    × ((length before ≡ pos_part page_offset)
        ⊎ ((length before ≤ pos_part page_offset) × (items ≡ []) × (after ≡ [])))
    × IsLimited page_limit items after
IsSlice (some page_offset) none all items = items ≡ all
IsSlice none page_limit all items = items ≡ all

take-drop : {A : Type 0} (n : ℕ) (xs : List A) → xs ≡ take n xs ++ drop n xs
take-drop zero xs = refl
take-drop (suc n) [] = refl
take-drop (suc n) (x ∷ xs) = ap (λ l. x ∷ l) (take-drop n xs)

take-IsLimited : {A : Type 0} (n : ℕ) (xs : List A) → IsLimited (pos n) (take n xs) (drop n xs)
take-IsLimited zero xs = (omega arith, inr refl)
take-IsLimited (suc n) [] = (omega arith, inl refl)
take-IsLimited (suc n) (x ∷ xs) =
    let (le, h) = take-IsLimited n xs in
    (omega (arith, le), elim h [ inl e ↦ inl e | inr e ↦ inr (ap suc e) ])

skipped :
    {A : Type 0} (n : ℕ) (xs : List A)
    → (length (take n xs) ≡ n) ⊎ ((length (take n xs) ≤ n) × (drop n xs ≡ []))
skipped n xs = let (le, h) = take-IsLimited n xs in elim h [ inl e ↦ inr (le, e) | inr e ↦ inl e ]

nothing_taken : {A : Type 0} (n : ℕ) (xs : List A) → xs ≡ [] → (take n xs ≡ []) × (drop n xs ≡ [])
nothing_taken {A} zero xs e = (refl, e)
nothing_taken (suc n) [] e = (refl, refl)
nothing_taken (suc n) (x ∷ xs) e = absurd (cc)

pub apply_paging-IsSlice :
    {A : Type 0} (page_offset page_limit : Option ℤ) (xs : List A)
    → IsSlice page_offset page_limit xs (apply_paging page_offset page_limit xs)
unfolding apply_paging
apply_paging-IsSlice none page_limit xs = refl
apply_paging-IsSlice (some page_offset) none xs = refl
apply_paging-IsSlice (some page_offset) (some (pos n)) xs =
    let k = pos_part page_offset in
    (
      take k xs,
      drop n (drop k xs),
      take-drop k xs ∙ ap (λ l. take k xs ++ l) (take-drop n (drop k xs)),
      elim (skipped k xs) [
        | inl e ↦ inl e
        | inr (le, e) ↦ let (taken, left) = nothing_taken n (drop k xs) e in inr (le, taken, left)
      ],
      take-IsLimited n (drop k xs),
    )
apply_paging-IsSlice (some page_offset) (some (negsuc n)) xs =
    let k = pos_part page_offset in
    (
      take k xs,
      [],
      take-drop k xs ∙ ap (λ l. take k xs ++ l) (sym (append-nil (drop k xs))),
      elim (skipped k xs) [ inl e ↦ inl e | inr (le, e) ↦ inr (le, e, refl) ],
      refl,
    )
