-- ===== src/Alarms.antt =====
-- services/alarm_client.py: what the client of the Alarm Logger makes of the
-- answers of the logger. `fetch` is `_get`.
pub mod Configured
use epics_mcp_server.Prelude.{
  ℕ, ◌+◌, ◌*◌, Bool, true, false, ◌||◌, Option, none, some, List, [], ◌∷◌, ◌++◌, ltb, ◌==◌,
  if◌then◌else◌, length,
}
use epics_mcp_server.Prelude.Texts.{Text, codes, text_eq, starts_with}
use epics_mcp_server.Attach.{take}
use epics_mcp_server.Json.{
  Json, items, object, Items, no_items, item, Fields, no_fields, field, get, as_text, as_object,
}
use epics_mcp_server.TimeWindow.{TimeLib, normalize_alarm_time}
use epics_mcp_server.Redact.{project_allowlist}
use epics_mcp_server.Transport.{Outcome, returned, resp_exc, value_error, ◌>>=◌}

-- The fields of a record that are answered
abbrev alarm_config_allowlist : List Text
alarm_config_allowlist =
    codes "config"
    ∷ codes "pv"
    ∷ codes "user"
    ∷ codes "host"
    ∷ codes "config_msg"
    ∷ codes "enabled"
    ∷ codes "latching"
    ∷ codes "annunciating"
    ∷ codes "delay"
    ∷ codes "count"
    ∷ codes "filter"
    ∷ codes "description"
    ∷ codes "guidance"
    ∷ codes "displays"
    ∷ codes "commands"
    ∷ codes "actions"
    ∷ codes "message_time"
    ∷ codes "time"
    ∷ []

abbrev alarm_history_allowlist : List Text
alarm_history_allowlist =
    codes "severity"
    ∷ codes "message"
    ∷ codes "value"
    ∷ codes "time"
    ∷ codes "current_severity"
    ∷ codes "current_message"
    ∷ codes "enabled"
    ∷ codes "mode"
    ∷ codes "message_time"
    ∷ codes "pv"
    ∷ codes "config"
    ∷ codes "user"
    ∷ codes "host"
    ∷ codes "command"
    ∷ codes "config_msg"
    ∷ []

abbrev pub project_alarm_config : Fields → Fields
project_alarm_config = project_allowlist alarm_config_allowlist

abbrev project_alarm_event : Fields → Fields
project_alarm_event = project_allowlist alarm_history_allowlist

-- The optional filters of a history.
pub record HistoryFilters : Type 0 where
  pub root : Option Text
  pub command : Option Text
  pub severity : Option Text
  pub current_severity : Option Text

pub data Request : Type 0 where
  config_search : (config : Text) → Request
  event_search : (pv : Text) → (start : Text) → (end : Text) → (size : ℕ) → HistoryFilters → Request

-- The `config` of a record, where the record is a dict with such a text.
abbrev pub config_of : Option Fields → Option Text
config_of none = none
config_of (some fs) = as_text (get (codes "config") fs)

abbrev pub is_readable : Option Text → Bool
is_readable none = false
is_readable (some config) = true

-- A record of a listing, with its `config`.
pub record AlarmRecord : Type 0 where
  pub config : Text
  pub fields : Fields

abbrev record_of : Option Fields → Option Text → Outcome AlarmRecord
record_of (some fs) (some config) = returned (record { config = config; fields = fs })
record_of _ _ = resp_exc none

unfoldable pub records_each : Items → Outcome (List AlarmRecord)
unfolding get
records_each no_items = returned []
records_each (item j js) = do
  first ← record_of (as_object j) (config_of (as_object j))
  rest ← records_each js
  returned (first ∷ rest)

-- `_require_alarm_records`
unfoldable pub require_alarm_records : Json → Outcome (List AlarmRecord)
unfolding records_each
require_alarm_records (items js) = records_each js
require_alarm_records _ = resp_exc none

-- `path.rsplit("/", 1)[-1]`, with what stands behind the last slash so far
unfoldable pub leaf : Text → Text → Text
leaf segment [] = segment
leaf segment (c ∷ s) = leaf (if c == b'/' then [] else segment ++ c ∷ []) s

abbrev pub leaf_of : AlarmRecord → Text
leaf_of r = leaf [] r.config

-- The first record of the PV
unfoldable pub find_leaf : Text → List AlarmRecord → Option Fields
unfolding leaf text_eq
find_leaf pv [] = none
find_leaf pv (r ∷ rs) =
    let rest = find_leaf pv rs in if text_eq (leaf_of r) pv then some r.fields else rest

unfoldable pub any_readable : Items → Bool
unfolding get
any_readable no_items = false
any_readable (item j js) = is_readable (config_of (as_object j)) || any_readable js

abbrev pub tree_answers : Json → Bool
tree_answers (items js) = any_readable js
tree_answers _ = false

abbrev pub tree_query : Text → Text
tree_query config_name = b'/' ∷ config_name ++ codes "/*"

-- The events of a page
abbrev projected : List AlarmRecord → List Fields
projected [] = []
projected (r ∷ rs) = project_alarm_event r.fields ∷ projected rs

unfoldable pub config_changes : List AlarmRecord → List AlarmRecord
unfolding starts_with
config_changes [] = []
config_changes (r ∷ rs) =
    let rest = config_changes rs in
    if starts_with r.config (codes "config:") then r ∷ rest else rest

abbrev of_command : Option Text → List AlarmRecord → List AlarmRecord
of_command none records = records
of_command (some command) records = config_changes records

abbrev or_invalid : Option Text → Outcome Text
or_invalid none = value_error
or_invalid (some s) = returned s

module _ (fetch : Request → Outcome Json) where
  abbrev pub on_miss : Bool → Option Bool × Fields
  on_miss true = (some false, no_fields)
  on_miss false = (none, no_fields)

  abbrev pub answer_of : Text → Option Fields → Outcome (Option Bool × Fields)
  answer_of config_name (some fs) = returned (some true, project_alarm_config fs)
  answer_of config_name none = do
    tree ← fetch (config_search (tree_query config_name))
    returned (on_miss (tree_answers tree))

  unfoldable pub is_alarm_configured : Text → Text → Outcome (Option Bool × Fields)
  unfolding require_alarm_records find_leaf project_allowlist any_readable
  is_alarm_configured pv config_name = do
    payload ← fetch (config_search (tree_query config_name ++ pv))
    records ← require_alarm_records payload
    answer_of config_name (find_leaf pv records)

  -- The events, and whether there are more.
  unfoldable pub get_alarm_history :
      TimeLib → Text → Text → Text → ℕ → HistoryFilters → Outcome (List Fields × Bool)
  unfolding require_alarm_records config_changes project_allowlist normalize_alarm_time
  get_alarm_history lib pv start end max_events filters = do
    from_time ← or_invalid (normalize_alarm_time lib start)
    to_time ← or_invalid (normalize_alarm_time lib end)
    payload ← fetch (event_search pv from_time to_time (max_events + 1) filters)
    records ← require_alarm_records payload
    let kept = of_command filters.command records
    returned (
      projected (take max_events kept),
      ltb max_events (length records) || ltb max_events (length kept),
    )
