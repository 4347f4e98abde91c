-- ===== src/Tests/Diagnosis.antt =====
-- Diagnoses of one PV.
use epics_mcp_server.Prelude.{ℕ, ◌≡◌, refl, true, false, none, some, []}
use epics_mcp_server.Prelude.Texts.{Text, codes}
use epics_mcp_server.Diagnose.{
  disconnected, name_typo, Cases, DiagnoseEvidence, Corroboration, derive_cause,
}
use epics_mcp_server.Diagnose.Cause.{IsUnlisted, IsNamed, derive_cause_iff}
use epics_mcp_server.Diagnose.Run.{diagnose}
use epics_mcp_server.Diagnose.Gather.{
  reading, epics_failure, answered, on, off, Services, Requested, gather,
}
use epics_mcp_server.Diagnose.Report.{IsUnserved, diagnose-IsUnserved}

abbrev unchanged : Cases
unchanged = record { lower = λ s. s; upper = λ s. s; strip = λ s. s }

-- The PV is not served, listed nowhere, and its device is not registered.
abbrev absent : Services ℕ
absent = record {
  pv_get = λ pv. epics_failure "PV_TIMEOUT" "timed out";
  query_channels = λ name. answered (on (record { rows = []; capped = false }));
  naming_url = "https://naming";
  check_connectivity = answered tt;
  validate_name = λ name. answered (false, "");
  query_archived = λ pv. answered (off none);
  query_alarm_configured = λ pv. answered (off none);
}

abbrev everything : Requested
everything = record {
  check_channelfinder = true;
  check_naming = true;
  check_archiver = true;
  check_alarm = true;
}

abbrev pv : Text
pv = codes "A:B:C.VAL"

is_typo : (diagnose unchanged absent everything pv).likely_cause ≡ name_typo
unfolding diagnose
is_typo = refl

typo_example : IsUnserved absent everything pv false
typo_example = (diagnose-IsUnserved absent everything pv unchanged).0 is_typo

abbrev present : Services ℕ
present = record absent { pv_get = λ name. reading (some 3) none }

abbrev evidence : DiagnoseEvidence ℕ
evidence = gather absent everything pv

cause_is_typo : (derive_cause unchanged disconnected evidence).likely_cause ≡ name_typo
unfolding derive_cause gather
cause_is_typo = refl

cause_example : (disconnected ≡ disconnected) × IsUnlisted evidence × IsNamed evidence false
cause_example = (derive_cause_iff unchanged disconnected evidence).3.0 cause_is_typo

abbrev archived : Corroboration
archived = record { consulted = true; found = some true; withheld = false; note = none }
