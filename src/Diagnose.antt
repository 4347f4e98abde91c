-- ===== src/Diagnose.antt =====
-- services/diagnose.py: why a PV is disconnected. The answers of the services (`pv_get`,
-- `query_channels`, `NamingServiceClient`, `query_archived`, `query_alarm_configured`) are the
-- parameter `Services`; Python's `lower`, `upper` and `strip` are the parameter `Cases`. A next step
-- or a note is a constructor with the values its text shows.
pub mod Cause
pub mod Gather
pub mod Run
pub mod Report
use epics_mcp_server.Prelude.{
  ◌+◌, String, Bool, false, not, ◌&&◌, ◌||◌, Option, none, some, List, [], ◌∷◌, ◌++◌, str_eq,
  if◌then◌else◌,
}
use epics_mcp_server.Prelude.Texts.{Text, text_eq}
use epics_mcp_server.Names.{record_name, device_name}

-- Why a plane gave no evidence.
pub data PlaneNote : Type 0 where
  not_requested naming_url_unset : PlaneNote
  service_disabled : (text : Option String) → PlaneNote
  service_error : (text : String) → PlaneNote

pub data State : Type 0 where
  connected disconnected unknown : State

pub data LikelyCause : Type 0 where
  healthy ioc_down name_typo unregistered indeterminate : LikelyCause

pub data Confidence : Type 0 where
  confirmed likely undetermined : Confidence

pub record Cases : Type 0 where
  pub lower : String → String
  pub upper : String → String
  pub strip : String → String

pub record LiveEvidence (V : Type 0) : Type 0 where
  pub connected : Bool
  pub value : Option V
  pub severity : Option String
  pub error_code : Option String
  pub error : Option String

pub record ChannelFinderEvidence : Type 0 where
  pub consulted : Bool
  pub registered : Option Bool
  pub pv_status : Option String
  pub ioc_name : Option String
  pub host_name : Option String
  pub capped : Bool
  pub withheld : Bool
  pub note : Option PlaneNote

pub record NamingEvidence : Type 0 where
  pub consulted : Bool
  pub registered : Option Bool
  pub status : Option String
  pub withheld : Bool
  pub note : Option PlaneNote

-- `ArchiverEvidence` (`archived`) and `AlarmEvidence` (`configured`)
pub record Corroboration : Type 0 where
  pub consulted : Bool
  pub found : Option Bool
  pub withheld : Bool
  pub note : Option PlaneNote

pub record DiagnoseEvidence (V : Type 0) : Type 0 where
  pub live : LiveEvidence V
  pub channelfinder : ChannelFinderEvidence
  pub naming : NamingEvidence
  pub archiver : Corroboration
  pub alarm : Corroboration

-- `_source_suffix`
pub data Source : Type 0 where
  on_host : (ioc host : String) → Source
  ioc_only : (ioc : String) → Source
  no_source : Source

pub data NextStep : Type 0 where
  connection_is_healthy retry confirm_ioc_and_address_list check_ioc_db : NextStep
  check_spelling enable_naming enable_channelfinder restart_ioc : NextStep
  check_ioc_running : Source → NextStep

pub data Note : Type 0 where
  in_alarm : (severity : String) → Note
  stale_status last_known_status : (pv_status : String) → Note
  archiver_corroborates search_found_no_server probe_timed_out registered_not_served : Note
  alarm_knows typo_is_candidate naming_not_consulted cf_withheld : Note
  internal_probe_error : (error : String) → Note

pub record CauseResult : Type 0 where
  pub likely_cause : LikelyCause
  pub confidence : Confidence
  pub next_steps : List NextStep
  pub notes : List Note

-- The truth of an optional text, and the text that `x or ""` gives.
abbrev pub text_or_empty : Option String → String
text_or_empty none = ""
text_or_empty (some s) = s

abbrev pub is_true : Option Bool → Bool
is_true none = false
is_true (some b) = b

abbrev pub is_false : Option Bool → Bool
is_false none = false
is_false (some b) = not b

abbrev pub has_text : Option String → Bool
has_text s = not (str_eq (text_or_empty s) "")

-- `s.lower() in _HEALTHY_PV_STATUS`
unfoldable pub is_healthy_status : Cases → String → Bool
is_healthy_status c s = str_eq (c.lower s) "online" || str_eq (c.lower s) "active"

unfoldable pub source_suffix : ChannelFinderEvidence → Source
source_suffix cf =
    if has_text cf.ioc_name && has_text cf.host_name
    then on_host (text_or_empty cf.ioc_name) (text_or_empty cf.host_name)
    else if has_text cf.ioc_name
    then ioc_only (text_or_empty cf.ioc_name)
    else no_source

abbrev pub result : LikelyCause → Confidence → List NextStep → List Note → CauseResult
result cause sure steps notes = record {
  likely_cause = cause;
  confidence = sure;
  next_steps = steps;
  notes = notes;
}

abbrev pub undecided : NextStep → List Note → CauseResult
undecided step notes = result indeterminate undetermined (step ∷ []) notes

abbrev only_if {ℓ} : {A : Type ℓ} → Bool → A → List A
only_if b a = if b then a ∷ [] else []

module _ {V : Type 0} (c : Cases) where
  -- The status of a known PV is one that is not up.
  unfoldable pub status_is_down : DiagnoseEvidence V → Bool
  unfolding is_healthy_status
  status_is_down ev =
      let pvst = c.strip (text_or_empty ev.channelfinder.pv_status) in
      not (str_eq pvst "") && not (is_healthy_status c pvst)

  unfoldable pub down_by_status : DiagnoseEvidence V → CauseResult
  unfolding source_suffix
  down_by_status ev =
      let sure = ev.archiver.consulted && is_true ev.archiver.found in
      result ioc_down (if sure then confirmed else likely)
        (check_ioc_running (source_suffix ev.channelfinder) ∷ restart_ioc ∷ [])
        (last_known_status (text_or_empty ev.channelfinder.pv_status)
          ∷ only_if sure archiver_corroborates)

  -- The PV is registered in ChannelFinder.
  unfoldable pub derive_registered : DiagnoseEvidence V → CauseResult
  unfolding status_is_down down_by_status source_suffix
  derive_registered ev =
      if status_is_down ev
      then down_by_status ev
      else if str_eq (text_or_empty ev.live.error_code) "PV_NOT_FOUND"
      then result ioc_down likely (check_ioc_running (source_suffix ev.channelfinder) ∷ [])
          (search_found_no_server ∷ [])
      else undecided confirm_ioc_and_address_list (probe_timed_out ∷ [])

  -- A ChannelFinder that is not truncated does not list the PV.
  unfoldable pub derive_missing : DiagnoseEvidence V → CauseResult
  derive_missing ev =
      if ev.naming.consulted && is_true ev.naming.registered
      then result unregistered likely (check_ioc_db ∷ []) (
          registered_not_served
          ∷ only_if (ev.alarm.consulted && is_true ev.alarm.found) alarm_knows)
      else if ev.naming.consulted && is_false ev.naming.registered
      then result name_typo likely (check_spelling ∷ []) (typo_is_candidate ∷ [])
      else undecided enable_naming (naming_not_consulted ∷ [])

  unfoldable pub derive_disconnected : DiagnoseEvidence V → CauseResult
  unfolding derive_registered derive_missing
  derive_disconnected ev =
      let cf = ev.channelfinder in
      if cf.consulted && is_true cf.registered
      then derive_registered ev
      else if cf.consulted && (is_false cf.registered && not cf.capped)
      then derive_missing ev
      else undecided enable_channelfinder (cf_withheld ∷ [])

  unfoldable pub derive_connected : DiagnoseEvidence V → CauseResult
  unfolding is_healthy_status
  derive_connected ev =
      let severity = text_or_empty ev.live.severity in
      let status = text_or_empty ev.channelfinder.pv_status in
      result healthy confirmed (connection_is_healthy ∷ []) (
        only_if (not (str_eq severity "") && not (str_eq (c.upper severity) "NO_ALARM"))
          (in_alarm severity)
        ++ only_if
            (ev.channelfinder.consulted
              && (not (str_eq status "") && not (is_healthy_status c status)))
            (stale_status status))

  unfoldable pub derive_cause : State → DiagnoseEvidence V → CauseResult
  unfolding derive_connected derive_disconnected
  derive_cause connected ev = derive_connected ev
  derive_cause unknown ev = undecided retry []
  derive_cause disconnected ev = derive_disconnected ev
