-- ===== src/Names.antt =====
-- The names of PVs: `_record_name` of services/crossplane.py and `_device_name` of
-- services/diagnose.py.
pub mod Record
use epics_mcp_server.Prelude.{
  ℕ, Bool, false, not, ◌&&◌, ◌||◌, Option, none, some, [], ◌∷◌, leb, ◌==◌, if◌then◌else◌,
}
use epics_mcp_server.Prelude.Texts.{Text, is_empty}

abbrev between : ℕ → ℕ → ℕ → Bool
between a b c = leb a c && leb c b

abbrev is_letter : ℕ → Bool
is_letter c = between b'A' b'Z' c || between b'a' b'z' c

abbrev is_word : ℕ → Bool
is_word c = is_letter c || (between b'0' b'9' c || c == b'_')

-- What `(?:\.[A-Za-z][A-Za-z0-9_]*)+$` leaves of a text, from inside a segment (`true`) or behind
-- its dot (`false`): nothing, or the last line feed, in front of which `$` matches too; `none` where
-- the pattern does not match.
unfoldable pub field_tail : Bool → Text → Option Text
field_tail in_segment [] = if in_segment then some [] else none
field_tail in_segment (c ∷ s) =
    let rest = field_tail (not (c == b'.')) s in
    if in_segment && (c == 10 && is_empty s)
    then some (c ∷ s)
    else if (if in_segment then is_word c || c == b'.' else is_letter c)
    then rest
    else none

abbrev cut_field : ℕ → Option Text → Text → Text
cut_field c none rest = c ∷ rest
cut_field c (some tail) rest = tail

-- `_record_name`: the leftmost match of the pattern is cut out.
unfoldable pub record_name : Text → Text
unfolding field_tail
record_name [] = []
record_name (c ∷ s) =
    let rest = record_name s in cut_field c (if c == b'.' then field_tail false s else none) rest

abbrev before_colon : ℕ → Option Text → Option Text
before_colon c none = if c == b':' then some [] else none
before_colon c (some p) = some (c ∷ p)

-- What stands before the last colon.
unfoldable pub before_last_colon : Text → Option Text
before_last_colon [] = none
before_last_colon (c ∷ s) = before_colon c (before_last_colon s)

abbrev or_whole : Text → Option Text → Text
or_whole s none = s
or_whole s (some p) = p

-- `_device_name`
unfoldable pub device_name : Text → Text
unfolding before_last_colon
device_name s = or_whole s (before_last_colon s)
