-- ===== src/PvClient/Monitor.antt =====
-- services/epics_client.py: `pv_monitor` and `_ChannelNotices`. The deliveries of the provider are a
-- list, in the order in which they hold the lock; times are in microseconds.
use epics_mcp_server.Prelude.{
  ℕ, ◌+◌, Bool, true, false, not, ◌&&◌, Option, none, some, List, [], ◌∷◌, ◌++◌, ltb, leb,
  if◌then◌else◌, length,
}
use epics_mcp_server.Prelude.Texts.{Text, is_empty}
use epics_mcp_server.Errors.{pv_timeout}
use epics_mcp_server.Attach.{take}
use epics_mcp_server.PvClient.{
  Formatting, formatted, crashed, Outcome, done, refused, classify_p4p_error,
}

-- A notice of the provider by its class; `other` has `str(notice)` and the name of its class.
pub data Notice : Type 0 where
  finished disconnected : Notice
  other : Text → Text → Notice

pub data Delivery (V : Type 0) : Type 0 where
  value : V → Delivery V
  notice : Notice → Delivery V

pub record ChannelNotices : Type 0 where
  pub saw_value : Bool
  pub saw_disconnect : Bool
  pub saw_finished : Bool
  pub errors : List Text

abbrev or_class : Text → Text → Text
or_class message class_name = if is_empty message then class_name else message

-- `_ChannelNotices.record`
unfoldable pub record_notice : ChannelNotices → Notice → ChannelNotices
record_notice n finished = record n { saw_finished = true }
record_notice n disconnected = record n { saw_disconnect = true }
record_notice n (other message class_name) = record n {
  errors = n.errors ++ or_class message class_name ∷ [];
}

pub data ConnectionState : Type 0 where
  connected unreachable unknown : ConnectionState

abbrev pub no_errors : List Text → Bool
no_errors [] = true
no_errors (e ∷ es) = false

-- `_ChannelNotices.state`; `unreachable` is "disconnected".
unfoldable pub state : ChannelNotices → ConnectionState
state n =
    if n.saw_value
    then connected
    else if n.saw_disconnect && (not n.saw_finished && no_errors n.errors)
    then unreachable
    else unknown

-- The sentences of `_ChannelNotices.detail`.
pub data Detail : Type 0 where
  reported : List Text → Detail
  never_connected ended_early nothing_observed : Detail

abbrev detail_by : ConnectionState → Bool → Option Detail
detail_by connected ended = none
detail_by unreachable ended = some never_connected
detail_by unknown ended = if ended then some ended_early else some nothing_observed

unfoldable pub detail : ChannelNotices → Option Detail
unfolding state
detail n =
    if no_errors n.errors then detail_by (state n) n.saw_finished else some (reported n.errors)

-- An event, or a value that could not be formatted.
pub data Event (E : Type 0) : Type 0 where
  event : E → Event E
  withheld : Event E

abbrev pub event_of : {E : Type 0} → Formatting E → Event E
event_of (formatted e) = event e
event_of (crashed cause) = withheld

-- What the callback shares with the waiting thread.
pub record Monitor (E : Type 0) : Type 0 where
  pub collected : List (Event E)
  pub stopped : Bool
  pub notices : ChannelNotices

pub record MonitorOutcome (E : Type 0) : Type 0 where
  pub events : List (Event E)
  pub truncated : Bool
  pub connection : ConnectionState
  pub connection_detail : Option Detail

abbrev pub started : {E : Type 0} → Monitor E
started = record {
  collected = [];
  stopped = false;
  notices = record { saw_value = false; saw_disconnect = false; saw_finished = false; errors = [] };
}

module _ {V E : Type 0} (format : V → Formatting E) (max_events : ℕ) where
  abbrev collect : Monitor E → V → Monitor E
  collect m v =
      if leb (max_events + 1) (length m.collected)
      then record m { stopped = true; notices = record m.notices { saw_value = true } }
      else record m {
        collected = m.collected ++ event_of (format v) ∷ [];
        notices = record m.notices { saw_value = true };
      }

  abbrev deliver : Monitor E → Delivery V → Monitor E
  deliver m (value v) = collect m v
  deliver m (notice n) = record m { notices = record_notice m.notices n }

  -- `_on_value`
  unfoldable pub on_value : Monitor E → Delivery V → Monitor E
  unfolding record_notice
  on_value m d = if m.stopped then m else deliver m d

  unfoldable pub run : Monitor E → List (Delivery V) → Monitor E
  unfolding on_value
  run m [] = m
  run m (d ∷ ds) = run (on_value m d) ds

  -- The end of `pv_monitor`
  unfoldable pub outcome_of : Monitor E → MonitorOutcome E
  unfolding state detail
  outcome_of m = record {
    events = take max_events m.collected;
    truncated = ltb max_events (length m.collected);
    connection = state m.notices;
    connection_detail = detail m.notices;
  }

-- What the subscription does: it is opened and delivers until the wait ends, or it raises.
pub data Subscription (V : Type 0) : Type 0 where
  opened : List (Delivery V) → Subscription V
  raised_timeout : Subscription V
  raised : Text → Subscription V

pub record MonitorConfig : Type 0 where
  pub max_monitor_duration : ℕ
  pub max_monitor_events : ℕ

-- `min(a if a is not None else most, most)`
abbrev pub clamped : Option ℕ → ℕ → ℕ
clamped none most = most
clamped (some a) most = if ltb most a then most else a

module _ {V E : Type 0} (lower : Text → Text) (config : MonitorConfig)
    (format : Text → V → Formatting E) where
  abbrev monitored : Text → ℕ → Subscription V → Outcome (MonitorOutcome E)
  monitored name most (opened ds) =
      done (outcome_of (format name) most (run (format name) most started ds))
  monitored name most raised_timeout = refused pv_timeout []
  monitored name most (raised message) = refused (classify_p4p_error lower message) message

  -- `subscribe` is the provider's subscription to a PV for a time.
  unfoldable pub pv_monitor :
      (subscribe : Text → ℕ → Subscription V)
      → Text
      → Option ℕ
      → Option ℕ
      → Outcome (MonitorOutcome E)
  unfolding classify_p4p_error run outcome_of
  pv_monitor subscribe name duration max_events =
      monitored name (clamped max_events config.max_monitor_events)
        (subscribe name (clamped duration config.max_monitor_duration))
