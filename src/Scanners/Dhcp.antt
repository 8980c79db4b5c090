-- ===== src/Scanners/Dhcp.antt =====
-- backend/src/scanners/dhcp/finder.rs: reading a DHCP client request.
pub mod Walk
pub mod Parsing
use oott.Prelude.{
  ℕ, zero, suc, ◌+◌, Bool, false, ◌&&◌, ◌||◌, not, Option, none, some, List, [], ◌∷◌, ltb, leb,
  ◌==◌, if◌then◌else◌, length, take, drop, get_elem?, unwrap_or,
}
use oott.Prelude.Text.{Text, is_empty}
use oott.Prelude.Utf8.{is_utf8, trim, trim_matches}
use oott.Utils.Network.{format_mac}
use oott.Scanners.Ipv4.{Ipv4Addr, ipv4, unspecified, ip_eq}

abbrev pub ciaddr_offset : ℕ
ciaddr_offset = 12

abbrev pub chaddr_offset : ℕ
chaddr_offset = 28

abbrev pub magic_cookie_offset : ℕ
magic_cookie_offset = 236

abbrev pub options_offset : ℕ
options_offset = 240

abbrev pub option_pad : ℕ
option_pad = 0

abbrev pub option_end : ℕ
option_end = 255

abbrev pub option_hostname : ℕ
option_hostname = 12

abbrev pub option_requested_ip : ℕ
option_requested_ip = 50

abbrev pub option_message_type : ℕ
option_message_type = 53

-- `buf[i]`, at an index below the length.
abbrev pub byte_at : List ℕ → ℕ → ℕ
byte_at buf i = unwrap_or 0 (get_elem? buf i)

-- `buf[from..to]`, given by its length.
abbrev pub slice : List ℕ → ℕ → ℕ → List ℕ
slice buf from len = take len (drop from buf)

-- `DhcpDiscovery`.
pub record DhcpDiscovery : Type 0 where
  pub mac : Text
  pub hostname : Option Text
  pub ip_hint : Option Ipv4Addr

-- The variables that the walk over the options assigns.
pub record Options : Type 0 where
  pub message_type : Option ℕ
  pub hostname : Option Text
  pub requested_ip : Option Ipv4Addr

abbrev pub no_options : Options
no_options = record { message_type = none; hostname = none; requested_ip = none }

abbrev set_hostname : Text → Options → Options
set_hostname name o = if is_empty name then o else record o { hostname = some name }

-- `name.trim_matches('\0').trim()`.
unfoldable pub clean_name : Text → Text
unfolding trim trim_matches
clean_name name = trim (trim_matches 0 name)

abbrev set_message_type : List ℕ → Options → Options
set_message_type [] o = o
set_message_type (t ∷ value) o = record o { message_type = some t }

abbrev set_requested_ip : List ℕ → Options → Options
set_requested_ip (a ∷ b ∷ c ∷ d ∷ []) o = record o { requested_ip = some (ipv4 a b c d) }
set_requested_ip _ o = o

-- The `match code` of the walk.
unfoldable pub read_option : ℕ → List ℕ → Options → Options
unfolding clean_name is_utf8
read_option code value o =
    if code == option_message_type
    then set_message_type value o
    else if code == option_hostname
    then if is_utf8 value then set_hostname (clean_name value) o else o
    else if code == option_requested_ip
    then set_requested_ip value o
    else o

-- The loop `while i < buf.len()`, on fuel; `none` means that the fuel ran out.
unfoldable pub walk_options : ℕ → List ℕ → ℕ → Options → Option Options
unfolding read_option
walk_options zero buf i o = none
walk_options (suc fuel) buf i o =
    let code = byte_at buf i in
    let len = byte_at buf (i + 1) in
    let padded = walk_options fuel buf (i + 1) o in
    let value = slice buf (i + 2) len in
    let further = walk_options fuel buf (i + 2 + len) (read_option code value o) in
    if not (ltb i (length buf))
    then some o
    else if code == option_end
    then some o
    else if code == option_pad
    then padded
    else if leb (length buf) (i + 1)
    then some o
    else if ltb (length buf) (i + 2 + len)
    then some o
    else further

-- The fixed header: its length, an Ethernet client request, and the magic cookie.
unfoldable pub is_client_request : List ℕ → Bool
is_client_request buf =
    leb options_offset (length buf)
    && (byte_at buf 0 == 1 && (byte_at buf 1 == 1 && byte_at buf 2 == 6))
    && (byte_at buf magic_cookie_offset == 99
        && (byte_at buf (magic_cookie_offset + 1) == 130
            && (byte_at buf (magic_cookie_offset + 2) == 83
                && byte_at buf (magic_cookie_offset + 3) == 99)))

abbrev pub asks_for_address : Option ℕ → Bool
asks_for_address none = false
asks_for_address (some t) = t == 1 || t == 3

unfoldable pub discovery : List ℕ → Options → Option DhcpDiscovery
unfolding format_mac
discovery buf o =
    let ciaddr =
      ipv4 (byte_at buf ciaddr_offset) (byte_at buf (ciaddr_offset + 1))
        (byte_at buf (ciaddr_offset + 2)) (byte_at buf (ciaddr_offset + 3)) in
    if asks_for_address o.message_type
    then some (record {
      mac = format_mac (slice buf chaddr_offset 6);
      hostname = o.hostname;
      ip_hint = if ip_eq ciaddr unspecified then o.requested_ip else some ciaddr;
    })
    else none

abbrev after_walk : List ℕ → Option Options → Option DhcpDiscovery
after_walk buf none = none
after_walk buf (some o) = discovery buf o

-- `parse_packet`. The walk has one round for each byte at most.
unfoldable pub parse_packet : List ℕ → Option DhcpDiscovery
unfolding is_client_request walk_options discovery
parse_packet buf =
    if is_client_request buf
    then after_walk buf (walk_options (suc (length buf)) buf options_offset no_options)
    else none
