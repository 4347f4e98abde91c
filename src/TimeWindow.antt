-- ===== src/TimeWindow.antt =====
-- services/_time_window.py, olog_time.py, alarm_time.py and archiver_time.py: how a bound of a time
-- window is read and sent, and `_add_window` of services/olog_client.py. `datetime` and the two
-- regular expressions are the parameter `TimeLib`.
pub mod Digits
pub mod Order
use Prim.Native.Nat.{◌/◌, ◌%◌}
use epics_mcp_server.Prelude.{
  ℕ, zero, suc, ◌+◌, ◌-◌, Bool, true, false, ◌&&◌, ◌||◌, Option, none, some, [], ◌∷◌, ◌++◌,
  if◌then◌else◌,
}
use epics_mcp_server.Prelude.Texts.{Text, codes, is_empty, text_eq}
use epics_mcp_server.Prelude.Sorted.{text_lt}
use epics_mcp_server.Urls.{strip}

-- A `datetime`, without its zone.
pub record Moment : Type 0 where
  pub year : ℕ
  pub month : ℕ
  pub day : ℕ
  pub hour : ℕ
  pub minute : ℕ
  pub second : ℕ
  pub microsecond : ℕ

-- A `datetime` without a zone, or with one, by its time in UTC.
pub data Stamp : Type 0 where
  naive zoned : Moment → Stamp

pub record TimeLib : Type 0 where
  -- `datetime.fromisoformat`; `none` for a ValueError
  pub fromisoformat : Text → Option Stamp
  -- `_PERIOD_UNIT_RE.match` and `_RELATIVE_RE.fullmatch`
  pub period_unit : Text → Bool
  pub relative : Text → Bool
  pub lower : Text → Text
  pub space : ℕ → Bool

-- What a value is; `refused` is a TimeWindowFormatError.
pub data TimeValue : Type 0 where
  refused amount : TimeValue
  absolute : Moment → TimeValue

abbrev utc_of : Option Stamp → Option Moment
utc_of none = none
utc_of (some (naive m)) = some m
utc_of (some (zoned m)) = some m

module _ (lib : TimeLib) where
  -- `_as_utc`
  unfoldable pub as_utc : Text → Option Moment
  as_utc value = utc_of (lib.fromisoformat value)

  abbrev classify_amount : Text → TimeValue
  classify_amount text =
      if text_eq (lib.lower text) (codes "now")
      then amount
      else if lib.period_unit text
      then refused
      else if lib.relative text
      then amount
      else refused

  abbrev absolute_or : Option Moment → TimeValue → TimeValue
  absolute_or none other = other
  absolute_or (some m) other = absolute m

  unfoldable pub classify_time_value : Text → TimeValue
  unfolding as_utc text_eq strip
  classify_time_value value =
      let text = strip lib.space value in
      if is_empty text then refused else absolute_or (as_utc text) (classify_amount text)

  abbrev only_absolute : TimeValue → Option Moment
  only_absolute (absolute m) = some m
  only_absolute _ = none

  unfoldable pub require_absolute_time : Text → Option Moment
  unfolding classify_time_value
  require_absolute_time value = only_absolute (classify_time_value value)

-- `f"{n:0{w}d}"` of a number of at most `w` digits
unfoldable pub digits : ℕ → ℕ → Text
digits zero n = []
digits (suc w) n = digits w (n / 10) ++ (48 + n % 10) ∷ []

-- The fields of a time to the millisecond, with what separates the day from the hour.
unfoldable pub wall_clock : ℕ → Moment → Text
wall_clock separator m =
    digits 4 m.year
    ++ b'-' ∷ digits 2 m.month
    ++ b'-' ∷ digits 2 m.day
    ++ separator ∷ digits 2 m.hour
    ++ b':' ∷ digits 2 m.minute
    ++ b':' ∷ digits 2 m.second
    ++ b'.' ∷ digits 3 (m.microsecond / 1000)

unfoldable pub format_iso_z : Moment → Text
unfolding wall_clock
format_iso_z m = wall_clock b'T' m ++ b'Z' ∷ []

-- `_format_wire`
unfoldable pub format_wire : Moment → Text
unfolding wall_clock
format_wire m = wall_clock 32 m

-- A value as it is sent, and whether it is absolute.
pub record WireTime : Type 0 where
  pub wire : Text
  pub is_absolute : Bool

module _ (lib : TimeLib) where
  abbrev olog_wire : Text → TimeValue → Option WireTime
  olog_wire value refused = none
  olog_wire value amount = some (record { wire = strip lib.space value; is_absolute = false })
  olog_wire value (absolute m) = some (record { wire = format_wire m; is_absolute = true })

  unfoldable pub normalize_olog_time : Text → Option WireTime
  unfolding classify_time_value format_wire strip
  normalize_olog_time value = olog_wire value (classify_time_value lib value)

  abbrev alarm_wire : Text → TimeValue → Option Text
  alarm_wire value refused = none
  alarm_wire value amount = some (strip lib.space value)
  alarm_wire value (absolute m) = some (format_iso_z m)

  unfoldable pub normalize_alarm_time : Text → Option Text
  unfolding classify_time_value format_iso_z strip
  normalize_alarm_time value = alarm_wire value (classify_time_value lib value)

  abbrev archiver_wire : Option Moment → Option Text
  archiver_wire none = none
  archiver_wire (some m) = some (format_iso_z m)

  unfoldable pub normalize_archiver_time : Text → Option Text
  unfolding require_absolute_time format_iso_z
  normalize_archiver_time value = archiver_wire (require_absolute_time lib value)

-- The parameters that a window adds to a search.
pub record Window : Type 0 where
  pub start : Option Text
  pub end : Option Text
  pub with_tz : Bool

abbrev sent : Option WireTime → Option Text
sent none = none
sent (some t) = some t.wire

abbrev absolute_bound : Option WireTime → Bool
absolute_bound none = false
absolute_bound (some t) = t.is_absolute

abbrev is_swapped : Option WireTime → Option WireTime → Bool
is_swapped (some s) (some e) = (s.is_absolute && e.is_absolute) && text_lt e.wire s.wire
is_swapped _ _ = false

abbrev window_of : Option WireTime → Option WireTime → Option Window
window_of start end =
    if is_swapped start end
    then none
    else some (record {
      start = sent start;
      end = sent end;
      with_tz = absolute_bound start || absolute_bound end;
    })

abbrev with_end : Option WireTime → Option (Option WireTime) → Option Window
with_end start none = none
with_end start (some end) = window_of start end

abbrev with_start : Option (Option WireTime) → Option (Option WireTime) → Option Window
with_start none end = none
with_start (some start) end = with_end start end

module _ (lib : TimeLib) where
  abbrev normalized : Option WireTime → Option (Option WireTime)
  normalized none = none
  normalized (some t) = some (some t)

  -- A bound that is not given, or is empty, is left out; `none` is refused.
  abbrev bound : Option Text → Option (Option WireTime)
  bound none = some none
  bound (some value) =
      if is_empty value then some none else normalized (normalize_olog_time lib value)

  -- `_add_window`
  unfoldable pub add_window : Option Text → Option Text → Option Window
  add_window start end = with_start (bound start) (bound end)
