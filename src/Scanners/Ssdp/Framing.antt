-- ===== src/Scanners/Ssdp/Framing.antt =====
-- The lines of an SSDP message: both endings of lines are read alike.
use oott.Prelude.{
  ℕ, Bool, true, false, ◌≡◌, refl, ap, ◌∙◌, List, [], ◌∷◌, ◌++◌, map, any, ◌==◌, arith,
}
use oott.Prelude.Text.{Text, join}
use oott.Prelude.Utf8.{is_utf8}
use oott.Scanners.Ssdp.{split_on, strip_return, read_message, parse_announcement}

abbrev pub ends_in_return : Text → Bool
ends_in_return [] = false
ends_in_return (b ∷ []) = b == 13
ends_in_return (b ∷ c ∷ t) = ends_in_return (c ∷ t)

-- A line has no line feed and no carriage return at its end.
abbrev pub AreLines : List Text → Type 0
AreLines [] = Unit
AreLines (l ∷ ls) = (any (λ b. b == 10) l ≡ false) × (ends_in_return l ≡ false) × AreLines ls

-- A part without the separator, at the end and before a separator.
pub split_on-last : (sep : ℕ) (l : Text) → any (λ b. b == sep) l ≡ false → split_on sep l ≡ l ∷ []
unfolding split_on
split_on-last sep [] h = refl
split_on-last sep (b ∷ l) h = ground (arith, split_on-last sep l)

pub split_on-part :
    (sep : ℕ) (l t : Text)
    → any (λ b. b == sep) l ≡ false
    → split_on sep (l ++ sep ∷ t) ≡ l ∷ split_on sep t
unfolding split_on
split_on-part sep [] t h = ground arith
split_on-part sep (b ∷ l) t h = ground (arith, split_on-part sep l t)

split_on-return :
    (l t : Text)
    → any (λ b. b == 10) l ≡ false
    → split_on 10 (l ++ 13 ∷ 10 ∷ t) ≡ (l ++ 13 ∷ []) ∷ split_on 10 t
unfolding split_on
split_on-return [] t h = refl
split_on-return (b ∷ l) t h = ground (arith, split_on-return l t)

strip_return-line : (l : Text) → ends_in_return l ≡ false → strip_return l ≡ l
unfolding strip_return
strip_return-line [] h = refl
strip_return-line (b ∷ []) h = ground arith
strip_return-line (b ∷ c ∷ l) h = ap (λ t. b ∷ t) (strip_return-line (c ∷ l) h)

strip_return-return : (l : Text) → strip_return (l ++ 13 ∷ []) ≡ l
unfolding strip_return
strip_return-return [] = refl
strip_return-return (b ∷ []) = refl
strip_return-return (b ∷ c ∷ l) = ap (λ t. b ∷ t) (strip_return-return (c ∷ l))

lines_of_feeds :
    (l : Text) (ls : List Text)
    → AreLines (l ∷ ls)
    → map strip_return (split_on 10 (join (10 ∷ []) (l ∷ ls))) ≡ l ∷ ls
unfolding join
lines_of_feeds l [] (h, k, valid) =
    ap (map strip_return) (split_on-last 10 l h) ∙ ap (λ t. t ∷ []) (strip_return-line l k)
lines_of_feeds l (m ∷ ls) (h, k, valid) =
    ap (map strip_return) (split_on-part 10 l (join (10 ∷ []) (m ∷ ls)) h)
    ∙ ap (λ t. t ∷ map strip_return (split_on 10 (join (10 ∷ []) (m ∷ ls)))) (strip_return-line l k)
    ∙ ap (λ r. l ∷ r) (lines_of_feeds m ls valid)

lines_of_returns :
    (l : Text) (ls : List Text)
    → AreLines (l ∷ ls)
    → map strip_return (split_on 10 (join (13 ∷ 10 ∷ []) (l ∷ ls))) ≡ l ∷ ls
unfolding join
lines_of_returns l [] (h, k, valid) =
    ap (map strip_return) (split_on-last 10 l h) ∙ ap (λ t. t ∷ []) (strip_return-line l k)
lines_of_returns l (m ∷ ls) (h, k, valid) =
    ap (map strip_return) (split_on-return l (join (13 ∷ 10 ∷ []) (m ∷ ls)) h)
    ∙ ap (λ t. t ∷ map strip_return (split_on 10 (join (13 ∷ 10 ∷ []) (m ∷ ls))))
        (strip_return-return l)
    ∙ ap (λ r. l ∷ r) (lines_of_returns m ls valid)

-- A message of UTF-8 lines, none with a line feed or with a carriage return at its end, is read as
-- these lines, whether they are joined by line feeds or by carriage returns and line feeds.
pub parse_announcement-join :
    (l : Text) (ls : List Text)
    → AreLines (l ∷ ls)
    → is_utf8 (join (10 ∷ []) (l ∷ ls)) ≡ true
    → is_utf8 (join (13 ∷ 10 ∷ []) (l ∷ ls)) ≡ true
    → (parse_announcement (join (10 ∷ []) (l ∷ ls)) ≡ read_message (l ∷ ls))
      × (parse_announcement (join (13 ∷ 10 ∷ []) (l ∷ ls)) ≡ read_message (l ∷ ls))
unfolding parse_announcement
parse_announcement-join l ls valid a b = (
  rw a (ap read_message (lines_of_feeds l ls valid)),
  rw b (ap read_message (lines_of_returns l ls valid)),
)
