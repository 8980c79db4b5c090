-- ===== src/Prelude/Utf8.antt =====
-- The encoding of strings: validity (`str::from_utf8`), character boundaries and trimming.
use oott.Prelude.Text.{Text}
use oott.Prelude.Tests.{leb, ltb, ◌==◌, if◌then◌else◌}
use Prim.Native.Nat.{ℕ, zero, suc}
use mathlib.Core.Bool.{Bool, true, ◌&&◌, ◌||◌}
use mathlib.Core.List.{[], ◌∷◌, reverse}

-- What the next bytes must be: the number of continuation bytes, and the range of the first.
pub record Expect : Type 0 where
  pub more : ℕ
  pub low : ℕ
  pub high : ℕ

abbrev expect : ℕ → ℕ → ℕ → Expect
expect more low high = record { more = more; low = low; high = high }

-- The bytes that may follow a first byte; a byte that cannot stand first expects an empty range.
unfoldable pub after_lead : ℕ → Expect
after_lead b =
    if ltb b 0x80
    then expect 0 0 0
    else if ltb b 0xc2
    then expect 1 1 0
    else if ltb b 0xe0
    then expect 1 0x80 0xbf
    else if b == 0xe0
    then expect 2 0xa0 0xbf
    else if b == 0xed
    then expect 2 0x80 0x9f
    else if ltb b 0xf0
    then expect 2 0x80 0xbf
    else if b == 0xf0
    then expect 3 0x90 0xbf
    else if ltb b 0xf4
    then expect 3 0x80 0xbf
    else if b == 0xf4
    then expect 3 0x80 0x8f
    else expect 1 1 0

abbrev continues : Expect → ℕ → Bool
continues e b = leb e.low b && leb b e.high

-- The state after one byte; `more = 0` is the state between two characters.
unfoldable pub next_expect : Expect → ℕ → Expect
unfolding after_lead
next_expect e b = if e.more == 0 then after_lead b else expect (pred_of e.more) 0x80 0xbf
  where
    pred_of : ℕ → ℕ
    pred_of zero = zero
    pred_of (suc n) = n

unfoldable pub utf8_from : Expect → Text → Bool
unfolding next_expect
utf8_from e [] = e.more == 0
utf8_from e (b ∷ t) = (e.more == 0 || continues e b) && utf8_from (next_expect e b) t

-- `str::from_utf8(bytes).is_ok()`.
unfoldable pub is_utf8 : Text → Bool
unfolding utf8_from
is_utf8 = utf8_from (expect 0 0 0)

-- A byte that is not a continuation byte begins a character.
unfoldable pub begins_char : Text → Bool
begins_char [] = true
begins_char (b ∷ t) = ltb b 0x80 || leb 0xc0 b

-- The characters with the property White_Space, by their one, two or three bytes.
abbrev pub space1 : ℕ → Bool
space1 b = b == 32 || (leb 9 b && leb b 13)

abbrev pub space2 : ℕ → ℕ → Bool
space2 a b = a == 0xc2 && (b == 0x85 || b == 0xa0)

abbrev pub space3 : ℕ → ℕ → ℕ → Bool
space3 a b c =
    (a == 0xe1 && (b == 0x9a && c == 0x80))
    || (a == 0xe2
        && (b == 0x80 && ((leb 0x80 c && leb c 0x8a) || (c == 0xa8 || (c == 0xa9 || c == 0xaf)))))
    || (a == 0xe2 && (b == 0x81 && c == 0x9f))
    || (a == 0xe3 && (b == 0x80 && c == 0x80))

-- Drop leading characters of one, two or three bytes that pass a test.
unfoldable pub strip_chars : (ℕ → Bool) → (ℕ → ℕ → Bool) → (ℕ → ℕ → ℕ → Bool) → Text → Text
strip_chars p q r [] = []
strip_chars p q r (a ∷ []) = if p a then [] else a ∷ []
strip_chars p q r (a ∷ b ∷ []) =
    let one = strip_chars p q r (b ∷ []) in if p a then one else if q a b then [] else a ∷ b ∷ []
strip_chars p q r (a ∷ b ∷ c ∷ t) =
    let one = strip_chars p q r (b ∷ c ∷ t) in
    let two = strip_chars p q r (c ∷ t) in
    let three = strip_chars p q r t in
    if p a then one else if q a b then two else if r a b c then three else a ∷ b ∷ c ∷ t

unfoldable pub trim_start : Text → Text
unfolding strip_chars
trim_start = strip_chars space1 space2 space3

unfoldable pub trim_end : Text → Text
unfolding strip_chars
trim_end t = reverse (strip_chars space1 (λ b a. space2 a b) (λ c b a. space3 a b c) (reverse t))

-- `str::trim`.
unfoldable pub trim : Text → Text
unfolding trim_start trim_end
trim t = trim_end (trim_start t)

-- Drop the leading bytes equal to one byte, and the trailing ones.
unfoldable pub strip_byte : ℕ → Text → Text
strip_byte x [] = []
strip_byte x (b ∷ t) = if b == x then strip_byte x t else b ∷ t

unfoldable pub trim_end_matches : ℕ → Text → Text
unfolding strip_byte
trim_end_matches x t = reverse (strip_byte x (reverse t))

unfoldable pub trim_matches : ℕ → Text → Text
unfolding trim_end_matches strip_byte
trim_matches x t = trim_end_matches x (strip_byte x t)
