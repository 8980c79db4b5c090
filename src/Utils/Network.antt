-- ===== src/Utils/Network.antt =====
-- backend/src/utils/network.rs: MAC addresses, the neighbour cache, the choice of an interface.
use Prim.Native.Nat.{bit_and}
use oott.Prelude.{
  ℕ, ◌+◌, ◌-◌, ◌*◌, ◌/◌, ◌%◌, Bool, true, false, ◌&&◌, ◌||◌, not, Option, none, some, List, [], ◌∷◌,
  map, ltb, leb, ◌==◌, if◌then◌else◌, first, keep, any, drop,
}
use oott.Scanners.Ipv4.{Ipv4Addr}
use oott.Prelude.Text.{Text, bytes, text_eq, to_ascii_lowercase, join}

-- `normalize_mac`.
unfoldable pub normalize_mac : Text → Text
normalize_mac mac = to_ascii_lowercase mac

-- `{b:02x}` of a byte.
unfoldable pub hex_digit : ℕ → ℕ
hex_digit d = if ltb d 10 then d + 48 else d + 87

unfoldable pub hex_byte : ℕ → Text
unfolding hex_digit
hex_byte b = hex_digit (b / 16) ∷ hex_digit (b % 16) ∷ []

-- `format_mac`.
unfoldable pub format_mac : List ℕ → Text
unfolding hex_byte join
format_mac octets = join (bytes ":") (map hex_byte octets)

-- The part of a text before the first separator (`split(sep).next()`), and what stands behind it.
unfoldable pub before : ℕ → Text → Text
before sep [] = []
before sep (b ∷ t) = if b == sep then [] else b ∷ before sep t

-- The value of a hexadecimal digit of either case.
unfoldable pub hex_value : ℕ → Option ℕ
hex_value b =
    if leb b'0' b && leb b b'9'
    then some (b - 48)
    else if leb b'a' b && leb b b'f'
    then some (b - 87)
    else if leb b'A' b && leb b b'F'
    then some (b - 55)
    else none

-- The digits of `u8::from_str_radix(_, 16)`, with the overflow of a byte as `none`.
unfoldable pub hex_digits : ℕ → Text → Option ℕ
unfolding hex_value
hex_digits acc [] = some acc
hex_digits acc (b ∷ t) = elim (hex_value b) [
  | none ↦ none
  | some d ↦ if ltb (acc * 16 + d) 256 then hex_digits (acc * 16 + d) t else none
]

-- `u8::from_str_radix(octet, 16)`: an empty text and a lone sign are refused, a leading `+` is not.
unfoldable pub parse_hex_u8 : Text → Option ℕ
unfolding hex_digits
parse_hex_u8 [] = none
parse_hex_u8 (b ∷ []) = hex_digits 0 (b ∷ [])
parse_hex_u8 (b ∷ c ∷ t) = if b == b'+' then hex_digits 0 (c ∷ t) else hex_digits 0 (b ∷ c ∷ t)

abbrev pub has_local_bit : Option ℕ → Bool
has_local_bit none = false
has_local_bit (some first_octet) = not (bit_and first_octet 0x02 == 0)

-- `is_locally_administered`.
unfoldable pub is_locally_administered : Text → Bool
unfolding before parse_hex_u8
is_locally_administered mac = has_local_bit (parse_hex_u8 (before b':' mac))

-- `pnet`'s addresses and interfaces: what the code reads of them. A MAC address is its text.
pub data IpNetwork : Type 0 where
  v4 : Ipv4Addr → IpNetwork
  v6 : IpNetwork

pub record NetworkInterface : Type 0 where
  pub name : Text
  pub mac : Option Text
  pub ips : List IpNetwork
  pub is_up : Bool
  pub is_loopback : Bool

abbrev is_ipv4 : IpNetwork → Bool
is_ipv4 (v4 ip) = true
is_ipv4 v6 = false

-- `select_interface`.
unfoldable pub select_interface : List NetworkInterface → Option Text → Option NetworkInterface
select_interface interfaces (some name) =
    first (λ el. text_eq el.name name) (keep (λ el. el.is_up) interfaces)
select_interface interfaces none =
    first (λ el. el.is_up && not el.is_loopback && any is_ipv4 el.ips) interfaces

-- The first IPv4 address of an interface.
unfoldable pub first_ipv4 : List IpNetwork → Option Ipv4Addr
first_ipv4 [] = none
first_ipv4 (v4 ip ∷ ips) = some ip
first_ipv4 (v6 ∷ ips) = first_ipv4 ips

-- What one line of /proc/net/arp, split at white space, says of an address: nothing, that it is not
-- usable, or its MAC.
pub data ArpLine : Type 0 where
  elsewhere unusable : ArpLine
  resolved : Text → ArpLine

unfoldable pub read_columns : Text → List Text → ArpLine
unfolding text_eq
read_columns ip_str (address ∷ hw_type ∷ flags ∷ mac ∷ rest) =
    if text_eq address ip_str
    then if text_eq flags (bytes "0x0") || text_eq mac (bytes "00:00:00:00:00:00")
      then unusable
      else resolved mac
    else elsewhere
read_columns ip_str _ = elsewhere

-- The loop of `parse_proc_net_arp` over the lines behind the header.
unfoldable pub search_lines : Text → List (List Text) → Option Text
search_lines ip_str [] = none
search_lines ip_str (cols ∷ lines) = elim (read_columns ip_str cols) [
  | elsewhere ↦ search_lines ip_str lines
  | unusable ↦ none
  | resolved mac ↦ some mac
]

-- `parse_proc_net_arp`, over the lines that `lines` and `split_whitespace` give.
unfoldable pub parse_proc_net_arp : List (List Text) → Text → Option Text
unfolding search_lines read_columns
parse_proc_net_arp lines ip_str = search_lines ip_str (drop 1 lines)
