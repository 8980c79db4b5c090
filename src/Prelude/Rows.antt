-- ===== src/Prelude/Rows.antt =====
-- Lemmas on the filters and updates of rows.
use Prim.Native.Nat.{suc}
use mathlib.Core.Path.{◌≡◌, refl, ap}
use mathlib.Core.Bool.{Bool, true, false, ◌||◌, not}
use mathlib.Core.Option.{Option, some}
use mathlib.Core.List.{List, [], ◌∷◌, ◌++◌, map}
use native.Mathlib.Omega.{arith}
use oott.Prelude.Tests.{ltb}
use oott.Prelude.Lists.{keep, any, update_where, length}

pub some_inj {ℓ} : {A : Type ℓ} {a b : A} → ◌≡◌ {A = Option A} (some a) (some b) → a ≡ b
some_inj h = cc

module _ {ℓ} {A : Type ℓ} where
  pub any-append : (p : A → Bool) (xs ys : List A) → any p (xs ++ ys) ≡ (any p xs || any p ys)
  any-append p [] ys = refl
  any-append p (x ∷ xs) ys = ground (arith, any-append p xs ys)

  pub any-keep : (p q : A → Bool) (xs : List A) → any p xs ≡ false → any p (keep q xs) ≡ false
  any-keep p q [] h = refl
  any-keep p q (x ∷ xs) h = ground (arith, any-keep p q xs)

  -- No row that a filter keeps fails its test.
  pub any-keep-not : (p : A → Bool) (xs : List A) → any p (keep (λ x. not (p x)) xs) ≡ false
  any-keep-not p [] = refl
  any-keep-not p (x ∷ xs) = ground (arith, any-keep-not p xs)

  pub any-update_where :
      (p q : A → Bool) (f : A → A)
      → ((x : A) → p (f x) ≡ p x)
      → (xs : List A) → any p (update_where q f xs) ≡ any p xs
  any-update_where p q f same [] = refl
  any-update_where p q f same (x ∷ xs) = ground (arith, same x, any-update_where p q f same xs)

  pub keep_idem : (p : A → Bool) (xs : List A) → keep p (keep p xs) ≡ keep p xs
  keep_idem p [] = refl
  keep_idem p (x ∷ xs) = ground (arith, keep_idem p xs)

  pub keep-none : (p : A → Bool) (xs : List A) → any p xs ≡ false → keep p xs ≡ []
  keep-none p [] h = refl
  keep-none p (x ∷ xs) h = ground (arith, keep-none p xs)

  pub keep-append : (p : A → Bool) (xs ys : List A) → keep p (xs ++ ys) ≡ keep p xs ++ keep p ys
  keep-append p [] ys = refl
  keep-append p (x ∷ xs) ys = ground (arith, keep-append p xs ys)

  pub length-update_where :
      (q : A → Bool) (f : A → A) (xs : List A) → length (update_where q f xs) ≡ length xs
  length-update_where q f [] = refl
  length-update_where q f (x ∷ xs) = ap suc (length-update_where q f xs)

module _ {ℓ κ} {A : Type ℓ} {B : Type κ} where
  -- A change that a view does not see leaves the view of every row.
  pub map-update_where :
      (view : A → B) (q : A → Bool) (f : A → A)
      → ((x : A) → view (f x) ≡ view x)
      → (xs : List A) → map view (update_where q f xs) ≡ map view xs
  map-update_where view q f same [] = refl
  map-update_where view q f same (x ∷ xs) =
      ground (arith, same x, map-update_where view q f same xs)

module _ {ℓ} {A : Type ℓ} where
  -- A count of rows is above 0 where some row passes.
  pub count-pos : (p : A → Bool) (xs : List A) → ltb 0 (length (keep p xs)) ≡ any p xs
  count-pos p [] = refl
  count-pos p (x ∷ xs) = ground (arith, count-pos p xs)

  pub any-end : (p : A → Bool) (xs : List A) (x : A) → p x ≡ true → any p (xs ++ x ∷ []) ≡ true
  any-end p xs x h = ground (arith, any-append p xs (x ∷ []))

module _ {ℓ} {A : Type ℓ} where
  -- The rows that were updated are the rows that passed, changed.
  pub keep-update_where :
      (p : A → Bool) (f : A → A)
      → ((x : A) → p (f x) ≡ p x)
      → (xs : List A) → keep p (update_where p f xs) ≡ map f (keep p xs)
  keep-update_where p f same [] = refl
  keep-update_where p f same (x ∷ xs) = ground (arith, same x, keep-update_where p f same xs)
