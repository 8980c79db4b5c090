-- ===== src/Scanners/Snmp/Finding/Addresses.antt =====
-- The text of an address that the devices table holds is read back as the address.
use oott.Prelude.{
  ℕ, zero, suc, ◌<◌, Bool, true, false, ◌&&◌, not, ◌≡◌, refl, Option, none, some, any, ◌==◌,
  if◌then◌else◌, arith,
}
use oott.Prelude.Text.{decimal}
use oott.Scanners.Ipv4.{Ipv4Addr, ip_text}
use oott.Scanners.Ssdp.Framing.{split_on-last, split_on-part}
use oott.Scanners.Snmp.Finding.{parse_octet, parse_ipv4}

abbrev is_read : ℕ → Option ℕ → Bool
is_read n none = false
is_read n (some m) = m == n

is_read-some : (n : ℕ) (o : Option ℕ) → is_read n o ≡ true → o ≡ some n
is_read-some n none h = absurd (cc)
is_read-some n (some m) h = ground arith

-- Whether the text of a number is one part of an address and read back.
is_octet : ℕ → Bool
is_octet n = is_read n (parse_octet (decimal n)) && not (any (λ b. b == b'.') (decimal n))

-- How many numbers before a bound are no octets.
others : ℕ → ℕ
others zero = 0
others (suc n) = if is_octet n then others n else suc (others n)

no_others : others 256 ≡ 0
unfolding others is_octet parse_octet decimal
no_others = refl

octet_of : (bound n : ℕ) → others bound ≡ 0 → n < bound → is_octet n ≡ true
unfolding others
octet_of zero n none_left h = absurd (omega arith)
octet_of (suc bound) n none_left h = ground (arith, octet_of bound n)

octet_back : (n : ℕ) → n < 256 → parse_octet (decimal n) ≡ some n
unfolding is_octet
octet_back n h =
    let e = octet_of 256 n no_others h in is_read-some n (parse_octet (decimal n)) (ground arith)

no_dot : (n : ℕ) → n < 256 → any (λ b. b == b'.') (decimal n) ≡ false
unfolding is_octet
no_dot n h = let e = octet_of 256 n no_others h in ground arith

-- The octets of an address are bytes.
abbrev pub IsAddress : Ipv4Addr → Type 0
IsAddress x = (x.a < 256) × (x.b < 256) × (x.c < 256) × (x.d < 256)

-- An address is read back from its text.
pub parse_ipv4-ip_text : (x : Ipv4Addr) → IsAddress x → parse_ipv4 (ip_text x) ≡ some x
unfolding parse_ipv4 ip_text
parse_ipv4-ip_text x (a, b, c, d) =
    rw
      (
        split_on-part b'.' (decimal x.a) _ (no_dot x.a a),
        split_on-part b'.' (decimal x.b) _ (no_dot x.b b),
        split_on-part b'.' (decimal x.c) _ (no_dot x.c c),
        split_on-last b'.' (decimal x.d) (no_dot x.d d),
        octet_back x.a a,
        octet_back x.b b,
        octet_back x.c c,
        octet_back x.d d,
      )
      refl
