-- ===== src/Db/Sql.antt =====
-- What the statements of backend/src/db do to a table: the parts of SQL that they use, as functions
-- on lists of rows.
use oott.Prelude.{
  ℕ, suc, Bool, true, false, Option, none, some, List, [], ◌∷◌, ltb, ◌==◌, if◌then◌else◌, length,
  keep, take, drop,
}
use oott.Prelude.Int.{ℤ, pos, negsuc, pos_part}
use oott.Prelude.Text.{Text}

-- The order of texts by their bytes (the BINARY collation).
unfoldable pub text_le : Text → Text → Bool
text_le [] t = true
text_le (a ∷ s) [] = false
text_le (a ∷ s) (b ∷ t) = if ltb a b then true else if a == b then text_le s t else false

abbrev pub text_ge : Text → Text → Bool
text_ge s t = text_le t s

abbrev pub text_lt : Text → Text → Bool
text_lt s t = elim (text_le t s) [ true ↦ false | false ↦ true ]

-- The rowid of the next row of a table: one above the largest in use.
unfoldable pub next_id : List (Option ℕ) → ℕ
next_id [] = 1
next_id (none ∷ ids) = next_id ids
next_id (some i ∷ ids) = let rest = next_id ids in if ltb i rest then rest else suc i

-- COUNT of the rows that pass a test.
abbrev pub count_where : {A : Type 0} → (A → Bool) → List A → ℕ
count_where p rows = length (keep p rows)

-- ORDER BY: `before a b` says that row `a` comes before row `b` or ties with it; ties keep the
-- order of insertion.
unfoldable pub insert_by : {A : Type 0} → (A → A → Bool) → A → List A → List A
insert_by before x [] = x ∷ []
insert_by before x (y ∷ ys) = if before x y then x ∷ y ∷ ys else y ∷ insert_by before x ys

unfoldable pub order_by : {A : Type 0} → (A → A → Bool) → List A → List A
unfolding insert_by
order_by before [] = []
order_by before (x ∷ xs) = insert_by before x (order_by before xs)

-- LIMIT: a negative one is no limit.
abbrev pub limit : {A : Type 0} → ℤ → List A → List A
limit (pos n) rows = take n rows
limit (negsuc n) rows = rows

-- `db::apply_paging`: LIMIT and OFFSET, added only when both are given. A negative OFFSET is 0.
unfoldable pub apply_paging : {A : Type 0} → Option ℤ → Option ℤ → List A → List A
apply_paging (some page_offset) (some page_limit) rows =
    limit page_limit (drop (pos_part page_offset) rows)
apply_paging _ _ rows = rows
