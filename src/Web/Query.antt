-- ===== src/Web/Query.antt =====
-- backend/src/web_server/utils.rs: the query parameters, and the types that they are parsed as.
pub mod Numbers
use oott.Prelude.{
  ℕ, ◌+◌, ◌-◌, ◌*◌, ◌^◌, Bool, true, false, ◌&&◌, Option, none, some, [], ◌∷◌, ◌++◌, if◌then◌else◌,
  ◌==◌, ltb, leb,
}
use oott.Prelude.Int.{ℤ, pos, negative}
use oott.Prelude.Text.{Text, bytes, text_eq, to_ascii_uppercase}

abbrev pub bind_option : {A B : Type 0} → (A → Option B) → Option A → Option B
bind_option f none = none
bind_option f (some a) = f a

-- `parse_parameter`, for a type that `parse` reads.
unfoldable pub parse_parameter :
    {T : Type 0} → (Text → Option T) → (Text → Option Text) → Text → Option T
parse_parameter parse params name = bind_option parse (params name)

-- `param_value.ends_with("Z")`.
unfoldable pub ends_with_z : Text → Bool
ends_with_z [] = false
ends_with_z (b ∷ []) = b == b'Z'
ends_with_z (b ∷ c ∷ t) = ends_with_z (c ∷ t)

-- The text that is parsed: in upper case, with a `Z` at its end.
unfoldable pub with_zone : Text → Text
unfolding ends_with_z to_ascii_uppercase
with_zone value =
    if ends_with_z (to_ascii_uppercase value)
    then to_ascii_uppercase value
    else to_ascii_uppercase value ++ b'Z' ∷ []

-- `parse_parameter_date`; `parse_from_rfc3339` is the `chrono` library's.
unfoldable pub parse_parameter_date : (Text → Option ℕ) → (Text → Option Text) → Text → Option ℕ
unfolding with_zone
parse_parameter_date parse_from_rfc3339 params name =
    bind_option (λ value. parse_from_rfc3339 (with_zone value)) (params name)

-- The query parameters of a request by their names.
abbrev pub Params : Type 0
Params = Text → Option Text

-- `bool::from_str`.
unfoldable pub parse_bool : Text → Option Bool
unfolding text_eq
parse_bool t =
    if text_eq t (bytes "true")
    then some true
    else if text_eq t (bytes "false")
    then some false
    else none

-- The number that decimal digits spell behind `n`.
unfoldable pub parse_digits : Text → ℕ → Option ℕ
parse_digits [] n = some n
parse_digits (c ∷ s) n =
    let rest = parse_digits s (n * 10 + (c - 48)) in if leb 48 c && leb c 57 then rest else none

-- At least one digit.
unfoldable pub magnitude : Text → Option ℕ
unfolding parse_digits
magnitude [] = none
magnitude (c ∷ s) = parse_digits (c ∷ s) 0

abbrev pub i64_limit : ℕ
i64_limit = 2 ^ 63

abbrev pub positive_i64 : ℕ → Option ℤ
positive_i64 n = if ltb n i64_limit then some (pos n) else none

abbrev pub negative_i64 : ℕ → Option ℤ
negative_i64 n = if leb n i64_limit then some (negative n) else none

-- `i64::from_str`.
unfoldable pub parse_i64 : Text → Option ℤ
unfolding magnitude
parse_i64 [] = none
parse_i64 (c ∷ s) =
    if c == b'-'
    then bind_option negative_i64 (magnitude s)
    else if c == b'+'
    then bind_option positive_i64 (magnitude s)
    else bind_option positive_i64 (magnitude (c ∷ s))
