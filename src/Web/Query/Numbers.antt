-- ===== src/Web/Query/Numbers.antt =====
-- Numbers in query parameters: what is written in decimal is read back, within the bounds of `i64`.
use oott.Prelude.{
  ℕ, zero, suc, ◌+◌, ◌/◌, ◌%◌, ◌≤◌, ◌≡◌, refl, ap, ◌∙◌, some, [], ◌∷◌, ◌==◌, Bool-cases, inl, inr,
  arith,
}
use oott.Prelude.Text.{Text, decimal, decimal_fuel}
use oott.Web.Query.{bind_option, parse_digits, magnitude, positive_i64, negative_i64, parse_i64}

-- The digits of a number are read as the number, whatever digits follow.
decimal_fuel-read :
    (f n : ℕ) (acc : Text) → n ≤ f → parse_digits (decimal_fuel f n acc) 0 ≡ parse_digits acc n
unfolding decimal_fuel parse_digits
decimal_fuel-read zero n acc h = ground arith
decimal_fuel-read (suc f) n acc h = elim (Bool-cases (n / 10 == 0)) [
  | inl e ↦ rw e (ground arith)
  | inr e ↦ rw e (decimal_fuel-read f (n / 10) ((n % 10 + 48) ∷ acc) (ground arith) ∙ ground arith)
]

abbrev StartsDigit : Text → Type 0
StartsDigit [] = ⊥
StartsDigit (c ∷ s) = 48 ≤ c

decimal_fuel-StartsDigit : (f n : ℕ) (acc : Text) → StartsDigit (decimal_fuel f n acc)
unfolding decimal_fuel
decimal_fuel-StartsDigit zero n acc = omega arith
decimal_fuel-StartsDigit (suc f) n acc = elim (Bool-cases (n / 10 == 0)) [
  | inl e ↦ rw (e, StartsDigit) (omega arith)
  | inr e ↦ rw (e, StartsDigit) (decimal_fuel-StartsDigit f (n / 10) ((n % 10 + 48) ∷ acc))
]

magnitude-digit : (t : Text) → StartsDigit t → magnitude t ≡ parse_digits t 0
unfolding magnitude
magnitude-digit [] h = absurd h
magnitude-digit (c ∷ s) h = refl

parse_i64-digit : (t : Text) → StartsDigit t → parse_i64 t ≡ bind_option positive_i64 (magnitude t)
unfolding parse_i64
parse_i64-digit [] h = absurd h
parse_i64-digit (c ∷ s) h = ground arith

pub magnitude-decimal : (n : ℕ) → magnitude (decimal n) ≡ some n
unfolding decimal parse_digits
magnitude-decimal n =
    magnitude-digit (decimal n) (decimal_fuel-StartsDigit n n [])
    ∙ decimal_fuel-read n n [] (omega arith)

-- A number that is written in decimal is read back as itself where it is below 2^63, and else as
-- nothing; behind a minus sign its negation is read where it is at most 2^63, and else nothing.
pub parse_i64-decimal :
    (n : ℕ)
    → (parse_i64 (decimal n) ≡ positive_i64 n) × (parse_i64 (b'-' ∷ decimal n) ≡ negative_i64 n)
unfolding decimal parse_i64
parse_i64-decimal n = (
  parse_i64-digit (decimal n) (decimal_fuel-StartsDigit n n [])
      ∙ ap (bind_option positive_i64) (magnitude-decimal n),
  ap (bind_option negative_i64) (magnitude-decimal n),
)
