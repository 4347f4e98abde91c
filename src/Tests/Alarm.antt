-- ===== src/Tests/Alarm.antt =====
-- Runs of the client of the Alarm Logger.
use epics_mcp_server.Prelude.{◌≡◌, refl, true, false, none, some, List, if◌then◌else◌}
use epics_mcp_server.Prelude.Texts.{codes, text_eq}
use epics_mcp_server.Json.{Json, text, items, object, no_items, item, no_fields, field}
use epics_mcp_server.Transport.{Outcome, returned, resp_exc}
use epics_mcp_server.Alarms.{Request, config_search, AlarmRecord, is_alarm_configured}
use epics_mcp_server.Alarms.Configured.{Listed, Verdict, is_alarm_configured_iff}

-- The tree has an alarm of `A:B`.
abbrev listing : Json
listing =
    items
      (item (object (field (codes "config") (text (codes "config:/T/x/A:B")) no_fields)) no_items)

abbrev fetch : Request → Outcome Json
fetch (config_search config) =
    if text_eq config (codes "/T/*")
    then returned listing
    else if text_eq config (codes "/T/*A:B")
    then returned listing
    else returned (items no_items)
fetch _ = resp_exc none

configured_runs :
    is_alarm_configured fetch (codes "A:B") (codes "T")
    ≡ returned (some true, field (codes "config") (text (codes "config:/T/x/A:B")) no_fields)
unfolding is_alarm_configured
configured_runs = refl

unknown_runs : is_alarm_configured fetch (codes "A:B") (codes "t") ≡ returned (none, no_fields)
unfolding is_alarm_configured
unknown_runs = refl

-- `B` has none, and the tree answers.
missing_runs : is_alarm_configured fetch (codes "B") (codes "T") ≡ returned (some false, no_fields)
unfolding is_alarm_configured
missing_runs = refl

missing_example :
    (rs : List AlarmRecord) × Listed fetch (codes "B") (codes "T") rs
    × Verdict fetch (codes "B") (codes "T") (some false) rs
missing_example =
    (is_alarm_configured_iff fetch (codes "B") (codes "T") (some false)).0 (no_fields, missing_runs)
