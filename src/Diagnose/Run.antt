-- ===== src/Diagnose/Run.antt =====
-- services/diagnose.py: `diagnose`, the whole from the services to the report.
use epics_mcp_server.Prelude.{String, Bool, Option, List, [], ◌∷◌, ◌++◌, if◌then◌else◌}
use epics_mcp_server.Prelude.Texts.{Text}
use epics_mcp_server.Diagnose.{
  State, connected, disconnected, unknown, Cases, DiagnoseEvidence, NextStep, Note,
  internal_probe_error, LikelyCause, Confidence, derive_cause, text_or_empty, has_text,
}
use epics_mcp_server.Diagnose.Gather.{Services, Requested, state_from_live, gather}

pub data Plane : Type 0 where
  channelfinder naming archiver alarm : Plane

pub record DiagnoseReport (V : Type 0) : Type 0 where
  pub pv_name : Text
  pub state : State
  pub likely_cause : LikelyCause
  pub confidence : Confidence
  pub evidence : DiagnoseEvidence V
  pub next_steps : List NextStep
  pub notes : List Note
  pub withheld : List Plane

abbrev pub named : Bool → Plane → List Plane
named withheld plane = if withheld then plane ∷ [] else []

abbrev probe_note : State → Option String → List Note
probe_note unknown error =
    if has_text error then internal_probe_error (text_or_empty error) ∷ [] else []
probe_note connected error = []
probe_note disconnected error = []

module _ {V : Type 0} where
  unfoldable pub collect_withheld : DiagnoseEvidence V → List Plane
  collect_withheld ev =
      named ev.channelfinder.withheld channelfinder
      ++ named ev.naming.withheld naming
      ++ named ev.archiver.withheld archiver
      ++ named ev.alarm.withheld alarm

  unfoldable pub diagnose : Cases → Services V → Requested → Text → DiagnoseReport V
  unfolding gather state_from_live derive_cause collect_withheld
  diagnose c s asked pv_name =
      let evidence = gather s asked pv_name in
      let state = state_from_live evidence.live in
      let cause = derive_cause c state evidence in
      record {
        pv_name = pv_name;
        state = state;
        likely_cause = cause.likely_cause;
        confidence = cause.confidence;
        evidence = evidence;
        next_steps = cause.next_steps;
        notes = cause.notes ++ probe_note state evidence.live.error;
        withheld = collect_withheld evidence;
      }
