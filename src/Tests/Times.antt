-- ===== src/Tests/Times.antt =====
-- A window whose end is before its start.
use epics_mcp_server.Prelude.{◌≡◌, refl, ◌↔◌, false, Option, none, some, arith, ◌==◌, if◌then◌else◌}
use epics_mcp_server.Prelude.Texts.{Text, codes, text_eq}
use epics_mcp_server.TimeWindow.{
  Moment, Stamp, zoned, TimeLib, absolute, classify_time_value, add_window,
}
use epics_mcp_server.TimeWindow.Order.{IsDate, IsBefore, add_window_refused_iff}

abbrev noon : Moment
noon = record {
  year = 2026;
  month = 7;
  day = 15;
  hour = 12;
  minute = 0;
  second = 0;
  microsecond = 250_999;
}

abbrev morning : Moment
morning = record noon { hour = 10 }

abbrev spelled : Text → Option Stamp
spelled s =
    if text_eq s (codes "12:00")
    then some (zoned noon)
    else if text_eq s (codes "10:00")
    then some (zoned morning)
    else none

abbrev lib : TimeLib
lib = record {
  fromisoformat = spelled;
  period_unit = λ s. false;
  relative = λ s. false;
  lower = λ s. s;
  space = λ c. c == 32;
}

noon_is : classify_time_value lib (codes "12:00") ≡ absolute noon
unfolding classify_time_value
noon_is = refl

morning_is : classify_time_value lib (codes "10:00") ≡ absolute morning
unfolding classify_time_value
morning_is = refl

noon-IsDate : IsDate noon
noon-IsDate = record {
  year = omega arith;
  month = omega arith;
  day = omega arith;
  hour = omega arith;
  minute = omega arith;
  second = omega arith;
  microsecond = omega arith;
}

morning-IsDate : IsDate morning
morning-IsDate = record {
  year = omega arith;
  month = omega arith;
  day = omega arith;
  hour = omega arith;
  minute = omega arith;
  second = omega arith;
  microsecond = omega arith;
}

swapped_example :
    (add_window lib (some (codes "12:00")) (some (codes "10:00")) ≡ none) ↔ IsBefore morning noon
swapped_example =
    add_window_refused_iff lib (codes "12:00") (codes "10:00") noon morning noon_is morning_is
      noon-IsDate morning-IsDate
