-- ===== src/Tests/Archive.antt =====
-- Runs of the client of the Archiver.
use epics_mcp_server.Prelude.{◌≡◌, refl, true, false, some, [], ◌∷◌, ◌==◌}
use epics_mcp_server.Prelude.Int.{pos}
use epics_mcp_server.Prelude.Texts.{Text, codes}
use epics_mcp_server.Json.{Json, integer, items, object, no_items, item, no_fields, field}
use epics_mcp_server.TimeWindow.{Moment, zoned, TimeLib, normalize_archiver_time}
use epics_mcp_server.Transport.{Outcome, returned, resp_exc, http_error}
use epics_mcp_server.Archiver.{Request, history}
use epics_mcp_server.Archiver.Samples.{
  Converted, number, unconvertible, Sample, HistoryResult, some_samples, answered, get_pv_history,
}
use epics_mcp_server.Archiver.History.{IsHonest, get_pv_history-IsHonest}

abbrev noon : Moment
noon = record {
  year = 2026;
  month = 7;
  day = 15;
  hour = 12;
  minute = 0;
  second = 0;
  microsecond = 0;
}

abbrev lib : TimeLib
lib = record {
  fromisoformat = λ s. some (zoned noon);
  period_unit = λ s. false;
  relative = λ s. false;
  lower = λ s. s;
  space = λ c. c == 32;
}

abbrev int_of : Json → Converted
int_of (integer n) = number n
int_of _ = unconvertible

abbrev point : Json
point =
    object
      (field (codes "secs") (integer (pos 5)) (field (codes "val") (integer (pos 7)) no_fields))

-- Two points, of which one may be returned.
abbrev payload : Json
payload = items (
    item (object (field (codes "data") (items (item point (item point no_items))) no_fields))
      no_items)

abbrev fetch : Request → Outcome Json
fetch (history pv from_time to_time) = returned payload
fetch _ = resp_exc (some (http_error 404))

abbrev sample : Sample
sample = record {
  secs = pos 5;
  nanos = pos 0;
  val = integer (pos 7);
  severity = pos 0;
  status = pos 0;
}

abbrev result : HistoryResult
result = record { samples = sample ∷ []; capped = true; meta = no_fields; status = some_samples }

history_runs :
    get_pv_history int_of lib fetch (codes "A") (codes "t") (codes "t") (pos 1)
    ≡ returned (answered result)
unfolding get_pv_history
history_runs = refl

history_example :
    (from_time to_time : Text) × (j : Json) × (normalize_archiver_time lib (codes "t")
      ≡ some from_time)
    × (normalize_archiver_time lib (codes "t") ≡ some to_time)
    × (fetch (history (codes "A") from_time to_time) ≡ returned j)
    × IsHonest int_of 1 j result
history_example =
    get_pv_history-IsHonest int_of lib fetch (codes "A") (codes "t") (codes "t") (pos 1) result
      history_runs
