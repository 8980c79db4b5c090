-- ===== src/Scanners/Ssdp.antt =====
-- backend/src/scanners/ssdp/finder.rs: reading an SSDP announcement.
pub mod Framing
use oott.Prelude.{
  ℕ, Bool, false, ◌||◌, Option, none, some, List, [], ◌∷◌, ◌++◌, map, ◌==◌, if◌then◌else◌,
}
use oott.Prelude.Text.{
  Text, bytes, text_eq, is_empty, starts_with, to_ascii_lowercase, to_ascii_uppercase,
}
use oott.Prelude.Utf8.{is_utf8, trim}

-- `Announcement`.
pub record Announcement : Type 0 where
  pub server : Option Text
  pub device_types : List Text

-- `text.split(sep)`: one part more than there are separators.
abbrev pub cons_head : ℕ → List Text → List Text
cons_head b [] = (b ∷ []) ∷ []
cons_head b (part ∷ parts) = (b ∷ part) ∷ parts

unfoldable pub split_on : ℕ → Text → List Text
split_on sep [] = [] ∷ []
split_on sep (b ∷ t) = if b == sep then [] ∷ split_on sep t else cons_head b (split_on sep t)

-- `l.strip_suffix('\r').unwrap_or(l)`.
unfoldable pub strip_return : Text → Text
strip_return [] = []
strip_return (b ∷ []) = if b == 13 then [] else b ∷ []
strip_return (b ∷ c ∷ t) = b ∷ strip_return (c ∷ t)

-- The parts of `line.splitn(2, sep)`: what stands before the first separator, and behind it.
abbrev cons_key : ℕ → Option (Text × Text) → Option (Text × Text)
cons_key b none = none
cons_key b (some (k, v)) = some (b ∷ k, v)

unfoldable pub split_once : ℕ → Text → Option (Text × Text)
split_once sep [] = none
split_once sep (b ∷ t) = if b == sep then some ([], t) else cons_key b (split_once sep t)

-- The variables that the loop over the header lines assigns.
pub record Headers : Type 0 where
  pub server : Option Text
  pub device_types : List Text
  pub nts : Option Text

abbrev pub no_headers : Headers
no_headers = record { server = none; device_types = []; nts = none }

-- The `match key.as_str()`.
unfoldable pub set_header : Text → Text → Headers → Headers
unfolding text_eq to_ascii_lowercase
set_header key value h =
    if text_eq key (bytes "nts")
    then record h { nts = some (to_ascii_lowercase value) }
    else if text_eq key (bytes "nt")
    then record h { device_types = h.device_types ++ value ∷ [] }
    else if text_eq key (bytes "server")
    then record h { server = some value }
    else h

-- A line with a colon and a value that is not empty is a header; any other line is skipped.
unfoldable pub read_pair : Option (Text × Text) → Headers → Headers
unfolding set_header trim to_ascii_lowercase
read_pair none h = h
read_pair (some (key, value)) h =
    if is_empty (trim value) then h else set_header (to_ascii_lowercase (trim key)) (trim value) h

unfoldable pub read_line : Text → Headers → Headers
unfolding split_once read_pair
read_line line h = if is_empty line then h else read_pair (split_once b':' line) h

unfoldable pub read_lines : List Text → Headers → Headers
unfolding read_line
read_lines [] h = h
read_lines (line ∷ lines) h = read_lines lines (read_line line h)

abbrev is_live : Option Text → Bool
is_live none = false
is_live (some nts) = text_eq nts (bytes "ssdp:alive") || text_eq nts (bytes "ssdp:update")

unfoldable pub announce : Headers → Option Announcement
unfolding text_eq
announce h =
    if is_live h.nts
    then some (record { server = h.server; device_types = h.device_types })
    else none

-- The lines of a message: the first must begin with "NOTIFY ".
unfoldable pub read_message : List Text → Option Announcement
unfolding read_lines announce starts_with to_ascii_uppercase
read_message [] = none
read_message (first_line ∷ lines) =
    if starts_with (bytes "NOTIFY ") (to_ascii_uppercase first_line)
    then announce (read_lines lines no_headers)
    else none

-- `parse_announcement`.
unfoldable pub parse_announcement : List ℕ → Option Announcement
unfolding is_utf8 split_on strip_return read_message
parse_announcement buf =
    if is_utf8 buf then read_message (map strip_return (split_on 10 buf)) else none
