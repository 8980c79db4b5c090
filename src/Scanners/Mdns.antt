-- ===== src/Scanners/Mdns.antt =====
-- backend/src/scanners/mdns/finder.rs: the names and services of an mDNS message, as the
-- `simple_dns` library has parsed it.
use oott.Prelude.{Bool, true, false, not, Option, none, some, List, [], ◌++◌, map, keep}
use oott.Prelude.Text.{Text, is_empty}

-- The kinds of record data that are told apart.
pub data RData : Type 0 where
  a ptr other : RData

-- A record of the parsed packet: its name as text, and its data.
pub record ResourceRecord : Type 0 where
  pub name : Text
  pub rdata : RData

pub record Packet : Type 0 where
  pub answers : List ResourceRecord
  pub additional_records : List ResourceRecord

-- `Announcement`.
pub record Announcement : Type 0 where
  pub hostnames : List Text
  pub service_types : List Text

abbrev pub is_a : RData → Bool
is_a RData.a = true
is_a _ = false

abbrev pub is_ptr : RData → Bool
is_ptr RData.ptr = true
is_ptr _ = false

-- The names, none of them empty, of the records whose data pass a test.
unfoldable pub names_of : (RData → Bool) → List ResourceRecord → List Text
names_of p records =
    keep (λ n. not (is_empty n)) (map (λ r. r.name) (keep (λ r. p r.rdata) records))

abbrev pub records_of : Packet → List ResourceRecord
records_of packet = packet.answers ++ packet.additional_records

-- `parse_announcement`, behind `Packet::parse`; `none` is a packet that cannot be parsed.
unfoldable pub parse_announcement : Option Packet → Announcement
unfolding names_of
parse_announcement none = record { hostnames = []; service_types = [] }
parse_announcement (some packet) = record {
  hostnames = names_of is_a (records_of packet);
  service_types = names_of is_ptr (records_of packet);
}
