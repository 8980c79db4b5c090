-- ===== src/Tests/Packets.antt =====
-- A DHCP request of a client.
use oott.Prelude.{ℕ, zero, suc, true, ◌≡◌, refl, some, List, [], ◌∷◌, ◌++◌, length, arith}
use oott.Prelude.Text.{bytes}
use oott.Scanners.Dhcp.{
  Options, parse_packet, walk_options, discovery, is_client_request, no_options, options_offset,
}
use oott.Scanners.Dhcp.Walk.{Item, pad, option, encode, AreOptions, read_items}
use oott.Scanners.Dhcp.Parsing.{parse_packet_ends, parse_packet-encode}

abbrev zeros : ℕ → List ℕ
zeros zero = []
zeros (suc n) = 0 ∷ zeros n

-- The header: a request over Ethernet, the hardware address, and the magic cookie.
abbrev header : List ℕ
header =
    1 ∷ 1 ∷ 6 ∷ 0 ∷ zeros 24
    ++ (2 ∷ 0 ∷ 0 ∷ 171 ∷ 205 ∷ 239 ∷ zeros 202)
    ++ (99 ∷ 130 ∷ 83 ∷ 99 ∷ [])

-- A DISCOVER, padding, a name and a requested address.
abbrev items : List Item
items = option 53 (1 ∷ []) ∷ pad ∷ option 12 (bytes "tv") ∷ option 50 (10 ∷ 0 ∷ 0 ∷ 9 ∷ []) ∷ []

items-AreOptions : AreOptions items
items-AreOptions = ground arith

packet-is_client_request : is_client_request (header ++ (encode items ++ 255 ∷ [])) ≡ true
unfolding is_client_request encode
packet-is_client_request = refl

parse_packet-encode_example :
    parse_packet (header ++ (encode items ++ 255 ∷ []))
    ≡ discovery (header ++ (encode items ++ 255 ∷ [])) (read_items items no_options)
parse_packet-encode_example =
    parse_packet-encode header items [] refl items-AreOptions packet-is_client_request

parse_packet_ends_example :
    (o : Options) × (walk_options
        (suc (length (header ++ (encode items ++ 255 ∷ []))))
        (header ++ (encode items ++ 255 ∷ []))
        options_offset
        no_options
      ≡ some o)
    × (parse_packet (header ++ (encode items ++ 255 ∷ []))
        ≡ discovery (header ++ (encode items ++ 255 ∷ [])) o)
parse_packet_ends_example =
    parse_packet_ends (header ++ (encode items ++ 255 ∷ [])) packet-is_client_request
