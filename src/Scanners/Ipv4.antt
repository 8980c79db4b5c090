-- ===== src/Scanners/Ipv4.antt =====
-- `std::net::Ipv4Addr`: four octets, their order and their text.
use oott.Prelude.{ℕ, ◌+◌, ◌*◌, Bool, ◌&&◌, ◌==◌, leb, ◌++◌}
use oott.Prelude.Text.{Text, bytes, decimal}

pub record Ipv4Addr : Type 0 where
  pub a : ℕ
  pub b : ℕ
  pub c : ℕ
  pub d : ℕ

abbrev pub ipv4 : ℕ → ℕ → ℕ → ℕ → Ipv4Addr
ipv4 a b c d = record { a = a; b = b; c = c; d = d }

abbrev pub unspecified : Ipv4Addr
unspecified = ipv4 0 0 0 0

abbrev pub ip_eq : Ipv4Addr → Ipv4Addr → Bool
ip_eq x y = x.a == y.a && (x.b == y.b && (x.c == y.c && x.d == y.d))

-- The order of the octets is that of the number that they spell.
abbrev pub ip_number : Ipv4Addr → ℕ
ip_number x = ((x.a * 256 + x.b) * 256 + x.c) * 256 + x.d

abbrev pub ip_le : Ipv4Addr → Ipv4Addr → Bool
ip_le x y = leb (ip_number x) (ip_number y)

-- `to_string`.
unfoldable pub ip_text : Ipv4Addr → Text
unfolding decimal
ip_text x =
    decimal x.a
    ++ (bytes "." ++ (decimal x.b ++ (bytes "." ++ (decimal x.c ++ (bytes "." ++ decimal x.d)))))
