-- ===== src/Db/Sorting.antt =====
-- What ORDER BY does to the rows: it permutes them, and each comes before the next.
use oott.Prelude.{Bool, true, ◌≡◌, refl, List, [], ◌∷◌, ◌||◌, arith, Bool-cases, inl, inr}
use mathlib.Core.List.{Perm}
use mathlib.Core.List.Perm
use oott.Prelude.Text.{Text}
use oott.Db.Sql.{text_le, insert_by, order_by}

-- Each row comes before the next or ties with it.
abbrev pub IsOrdered : {A : Type 0} → (A → A → Bool) → List A → Type 0
IsOrdered before [] = Unit
IsOrdered before (x ∷ []) = Unit
IsOrdered before (x ∷ y ∷ ys) = (before x y ≡ true) × IsOrdered before (y ∷ ys)

module _ {A : Type 0} (before : A → A → Bool) where
  insert_by-Perm : (x : A) (ys : List A) → Perm (insert_by before x ys) (x ∷ ys)
  unfolding insert_by
  insert_by-Perm x [] = Perm.refl (x ∷ [])
  insert_by-Perm x (y ∷ ys) = elim (Bool-cases (before x y)) [
    | inl e ↦ rw e (Perm.refl (x ∷ y ∷ ys))
    | inr e ↦ rw e (Perm.trans (Perm.cons y (insert_by-Perm x ys)) (Perm.swap x y ys))
  ]

  pub order_by-Perm : (xs : List A) → Perm (order_by before xs) xs
  unfolding order_by
  order_by-Perm [] = Perm.refl []
  order_by-Perm (x ∷ xs) =
      Perm.trans (insert_by-Perm x (order_by before xs)) (Perm.cons x (order_by-Perm xs))

  module _ (total : (x y : A) → (before x y || before y x) ≡ true) where
    insert_by-IsOrdered :
        (x : A) (ys : List A) → IsOrdered before ys → IsOrdered before (insert_by before x ys)
    unfolding insert_by
    insert_by-IsOrdered x [] h = tt
    insert_by-IsOrdered x (y ∷ []) h = ground (arith, total x y)
    insert_by-IsOrdered x (y ∷ z ∷ zs) (e, h) =
        ground (arith, total x y, insert_by-IsOrdered x (z ∷ zs) h)

    pub order_by-IsOrdered : (xs : List A) → IsOrdered before (order_by before xs)
    unfolding order_by
    order_by-IsOrdered [] = tt
    order_by-IsOrdered (x ∷ xs) = insert_by-IsOrdered x (order_by before xs) (order_by-IsOrdered xs)

-- The order of texts is total.
pub text_le_total : (s t : Text) → (text_le s t || text_le t s) ≡ true
unfolding text_le
text_le_total [] t = refl
text_le_total (a ∷ s) [] = refl
text_le_total (a ∷ s) (b ∷ t) = ground (arith, text_le_total s t)

pub text_le_antisym : (s t : Text) → text_le s t ≡ true → text_le t s ≡ true → s ≡ t
unfolding text_le
text_le_antisym [] [] h k = refl
text_le_antisym [] (b ∷ t) h k = absurd (cc)
text_le_antisym (a ∷ s) [] h k = absurd (cc)
text_le_antisym (a ∷ s) (b ∷ t) h k = ground (arith, text_le_antisym s t)

pub text_le_trans : (s t u : Text) → text_le s t ≡ true → text_le t u ≡ true → text_le s u ≡ true
unfolding text_le
text_le_trans [] t u h k = refl
text_le_trans (a ∷ s) [] u h k = absurd (cc)
text_le_trans (a ∷ s) (b ∷ t) [] h k = absurd (cc)
text_le_trans (a ∷ s) (b ∷ t) (c ∷ u) h k = ground (arith, text_le_trans s t u)
