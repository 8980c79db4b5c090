-- ===== src/Scanners/Dhcp/Parsing.antt =====
-- Whole DHCP packets: the walk ends within its fuel, and the options that were written are read.
use oott.Prelude.{
  ℕ, suc, ◌≤◌, ◌<◌, true, ◌≡◌, refl, sym, some, List, [], ◌∷◌, ◌++◌, length, length-append, arith,
  Option-cases, inl, inr,
}
use oott.Scanners.Dhcp.{
  Options, walk_options, parse_packet, is_client_request, discovery, no_options, options_offset,
}
use oott.Scanners.Dhcp.Walk.{
  walk_options-ne-none, walk-encode, Item, pad, option, encode, AreOptions, read_items,
}

is_client_request-length :
    (buf : List ℕ) → is_client_request buf ≡ true → options_offset ≤ length buf
unfolding is_client_request
is_client_request-length buf h = ground arith

parse_packet-walk :
    (buf : List ℕ) (o : Options)
    → is_client_request buf ≡ true
    → walk_options (suc (length buf)) buf options_offset no_options ≡ some o
    → parse_packet buf ≡ discovery buf o
unfolding parse_packet
parse_packet-walk buf o h e = rw (h, e) refl

-- On a packet with the header of a client request, whatever stands behind it, the walk over the
-- options ends within its fuel, one round for each byte of the packet, and the answer is that for
-- the options it read.
pub parse_packet_ends :
    (buf : List ℕ)
    → is_client_request buf ≡ true
    → (o : Options) × (walk_options (suc (length buf)) buf options_offset no_options ≡ some o)
      × (parse_packet buf ≡ discovery buf o)
parse_packet_ends buf h =
    elim (Option-cases (walk_options (suc (length buf)) buf options_offset no_options)) [
      | inl e ↦ absurd (
          walk_options-ne-none (suc (length buf)) buf options_offset no_options (omega arith)
            (is_client_request-length buf h) e)
      | inr (o, e) ↦ (o, e, parse_packet-walk buf o h e)
    ]

length_le_encode : (items : List Item) → length items ≤ length (encode items)
unfolding encode
length_le_encode [] = omega arith
length_le_encode (pad ∷ items) = let h = length_le_encode items in omega arith
length_le_encode (option code v ∷ items) =
    let h = length_le_encode items in let l = length-append v (encode items) in omega arith

-- A packet with the header of a client request, written options behind its 240 bytes, and the end
-- option behind them is answered for these options, each of them read once and in their order,
-- whatever follows.
pub parse_packet-encode :
    (header : List ℕ) (items : List Item) (rest : List ℕ)
    → length header ≡ options_offset
    → AreOptions items
    → is_client_request (header ++ (encode items ++ 255 ∷ rest)) ≡ true
    → parse_packet (header ++ (encode items ++ 255 ∷ rest))
      ≡ discovery (header ++ (encode items ++ 255 ∷ rest)) (read_items items no_options)
parse_packet-encode header items rest size valid h =
    let buf = header ++ (encode items ++ 255 ∷ rest) in
    let fuel : length items < suc (length buf) =
      let a = length-append header (encode items ++ 255 ∷ rest) in
      let b = length-append (encode items) (255 ∷ rest) in
      let c = length_le_encode items in omega arith in
    parse_packet-walk buf (read_items items no_options) h (
      walk-encode items (suc (length buf)) buf header rest options_offset no_options valid fuel refl
        (sym size))
