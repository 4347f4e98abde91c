-- ===== src/Diagnose/Gather.antt =====
-- services/diagnose.py: the gatherers of the evidence. Each query is a function from
-- a name to its outcome; the planes run concurrently and share no state.
use epics_mcp_server.Prelude.{
  String, Bool, true, false, not, Option, none, some, List, [], ◌∷◌, str_eq, if◌then◌else◌,
}
use epics_mcp_server.Prelude.Texts.{Text, text_eq}
use epics_mcp_server.Names.{record_name, device_name}
use epics_mcp_server.Diagnose.{
  State, connected, disconnected, unknown, LiveEvidence, ChannelFinderEvidence, NamingEvidence,
  Corroboration, DiagnoseEvidence, PlaneNote, not_requested, naming_url_unset, service_disabled,
  service_error,
}

-- What `pv_get` gives: a reading with the severity its alarm shows, an `EpicsError` with its code, or
-- another exception.
pub data Probe (V : Type 0) : Type 0 where
  reading : (value : Option V) (severity : Option String) → Probe V
  epics_failure : (code text : String) → Probe V
  internal_failure : (text : String) → Probe V

pub data Outcome (A : Type 0) : Type 0 where
  raised : (text : String) → Outcome A
  answered : A → Outcome A

-- The answer of a query that may be switched off.
pub data Answer (A : Type 0) : Type 0 where
  off : (text : Option String) → Answer A
  on : A → Answer A

pub record ChannelRow : Type 0 where
  pub name : Text
  pub pv_status : Option String
  pub ioc_name : Option String
  pub host_name : Option String

pub record Channels : Type 0 where
  pub rows : List ChannelRow
  pub capped : Bool

pub record Services (V : Type 0) : Type 0 where
  pub pv_get : Text → Probe V
  pub query_channels : Text → Outcome (Answer Channels)
  pub naming_url : String
  pub check_connectivity : Outcome (Unit {0})
  pub validate_name : Text → Outcome (Bool × String)
  pub query_archived : Text → Outcome (Answer (Option Bool))
  pub query_alarm_configured : Text → Outcome (Answer (Option Bool))

-- The planes that are asked for.
pub record Requested : Type 0 where
  pub check_channelfinder : Bool
  pub check_naming : Bool
  pub check_archiver : Bool
  pub check_alarm : Bool

-- The channel whose name is exactly the record's.
unfoldable pub exact_row : Text → List ChannelRow → Option ChannelRow
unfolding text_eq
exact_row record_ [] = none
exact_row record_ (row ∷ rows) =
    let rest = exact_row record_ rows in if text_eq row.name record_ then some row else rest

abbrev no_channelfinder : Bool → PlaneNote → ChannelFinderEvidence
no_channelfinder withheld note = record {
  consulted = false;
  registered = none;
  pv_status = none;
  ioc_name = none;
  host_name = none;
  capped = false;
  withheld = withheld;
  note = some note;
}

abbrev pub from_row : Bool → Option ChannelRow → ChannelFinderEvidence
from_row capped none = record {
  consulted = true;
  registered = some false;
  pv_status = none;
  ioc_name = none;
  host_name = none;
  capped = capped;
  withheld = false;
  note = none;
}
from_row capped (some row) = record {
  consulted = true;
  registered = some true;
  pv_status = row.pv_status;
  ioc_name = row.ioc_name;
  host_name = row.host_name;
  capped = capped;
  withheld = false;
  note = none;
}

unfoldable pub channelfinder_of : Text → Outcome (Answer Channels) → ChannelFinderEvidence
unfolding exact_row
channelfinder_of name (raised text) = no_channelfinder true (service_error text)
channelfinder_of name (answered (off text)) = no_channelfinder true (service_disabled text)
channelfinder_of name (answered (on channels)) =
    from_row channels.capped (exact_row name channels.rows)

abbrev no_naming : Bool → PlaneNote → NamingEvidence
no_naming withheld note = record {
  consulted = false;
  registered = none;
  status = none;
  withheld = withheld;
  note = some note;
}

abbrev or_none : String → Option String
or_none s = if str_eq s "" then none else some s

abbrev pub naming_of : Outcome (Unit {0}) → Outcome (Bool × String) → NamingEvidence
naming_of (raised text) status = no_naming true (service_error text)
naming_of (answered u) (raised text) = no_naming true (service_error text)
naming_of (answered u) (answered (registered, status)) = record {
  consulted = true;
  registered = some registered;
  status = or_none status;
  withheld = false;
  note = none;
}

abbrev no_corroboration : Bool → PlaneNote → Corroboration
no_corroboration withheld note = record {
  consulted = false;
  found = none;
  withheld = withheld;
  note = some note;
}

unfoldable pub corroboration_of : Outcome (Answer (Option Bool)) → Corroboration
corroboration_of (raised text) = no_corroboration true (service_error text)
corroboration_of (answered (off text)) = no_corroboration true (service_disabled none)
corroboration_of (answered (on found)) = record {
  consulted = true;
  found = found;
  withheld = false;
  note = none;
}

unfoldable pub live_of : {V : Type 0} → Probe V → LiveEvidence V
live_of (reading value severity) = record {
  connected = true;
  value = value;
  severity = severity;
  error_code = none;
  error = none;
}
live_of (epics_failure code text) = record {
  connected = false;
  value = none;
  severity = none;
  error_code = some code;
  error = some text;
}
live_of (internal_failure text) = record {
  connected = false;
  value = none;
  severity = none;
  error_code = none;
  error = some text;
}

abbrev coded : Option String → State
coded none = unknown
coded (some code) = disconnected

module _ {V : Type 0} where
  unfoldable pub state_from_live : LiveEvidence V → State
  state_from_live live = if live.connected then connected else coded live.error_code

  module _ (s : Services V) (asked : Requested) (pv_name : Text) where
    unfoldable pub gather_channelfinder : ChannelFinderEvidence
    unfolding channelfinder_of record_name
    gather_channelfinder =
        if not asked.check_channelfinder
        then no_channelfinder false not_requested
        else let name = record_name pv_name in channelfinder_of name (s.query_channels name)

    unfoldable pub gather_naming : NamingEvidence
    unfolding device_name
    gather_naming =
        if not asked.check_naming
        then no_naming false not_requested
        else if str_eq s.naming_url ""
        then no_naming true naming_url_unset
        else naming_of s.check_connectivity (s.validate_name (device_name pv_name))

    unfoldable pub gather_archiver : Corroboration
    unfolding corroboration_of
    gather_archiver =
        if not asked.check_archiver
        then no_corroboration false not_requested
        else corroboration_of (s.query_archived pv_name)

    unfoldable pub gather_alarm : Corroboration
    unfolding corroboration_of
    gather_alarm =
        if not asked.check_alarm
        then no_corroboration false not_requested
        else corroboration_of (s.query_alarm_configured pv_name)

    unfoldable pub gather : DiagnoseEvidence V
    unfolding live_of gather_channelfinder gather_naming gather_archiver gather_alarm
    gather = record {
      live = live_of (s.pv_get pv_name);
      channelfinder = gather_channelfinder;
      naming = gather_naming;
      archiver = gather_archiver;
      alarm = gather_alarm;
    }
