-- ===== src/Write.antt =====
-- tools/write.py: `_set_pv_value`. What the network does is an argument: the outcomes of the two
-- reads and of the put. The run is recorded as the sequence of its I/O calls and audit lines.
pub mod Trace
pub mod Outcome
use epics_mcp_server.Prelude.{
  ℕ, suc, ◌+◌, String, Bool, false, not, Option, none, some, List, [], ◌∷◌, ◌++◌, if◌then◌else◌,
}
use epics_mcp_server.Errors.{EpicsError, error_code, pv_write_bounds, Result, ok, err}
use epics_mcp_server.Values.{Floats, Value, nothing, Reading}
use epics_mcp_server.Safety.{
  Regex, AuditLine, deny, attempt, allow, failed, unknown_pending, bounds_deny, readback_line,
  SafetyLayer, check_write_allowed, audit_write_attempt, audit_write, audit_write_failed,
  audit_write_unknown, audit_readback, audit_bounds_deny,
}
use epics_mcp_server.Bounds.{BoundsVerdict, BoundsNote, check_value_in_bounds}
use epics_mcp_server.Readback.{Verification, ReadbackNote, verify_readback}

-- What may be raised: an `EpicsError`, any other `Exception`, or the `CancelledError` of asyncio.
pub data Raised : Type 0 where
  epics_error : EpicsError → Raised
  internal cancelled : Raised

-- The outcome of an awaited call.
pub data Awaited (A : Type 0) : Type 0 where
  returned : A → Awaited A
  raised : Raised → Awaited A

-- The code that the audit line of a failed put carries.
unfoldable pub failure_code : Raised → String
unfolding error_code
failure_code (epics_error e) = error_code e
failure_code internal = "INTERNAL"
failure_code cancelled = "INTERNAL"

pub data WriteNote : Type 0 where
  readback_failed : WriteNote
  judged : ReadbackNote → WriteNote

pub record WriteResult (F : Type 0) : Type 0 where
  pub old_value : Value F
  pub new_value : String
  pub readback : Value F
  pub verified : Option Bool
  pub tolerance : Option F
  pub note : Option WriteNote
  pub bounds_note : Option BoundsNote

-- One step of a run that others can observe.
pub data Step (F : Type 0) : Type 0 where
  get : (pv : String) → Step F
  put : (pv value : String) → Step F
  line : AuditLine F → Step F

-- What the network does in a run.
pub record Network (F : Type 0) : Type 0 where
  pub pre_read : Awaited (Reading F)
  pub put : Awaited (Unit {0})
  pub readback : Awaited (Reading F)

-- The server's state, the steps so far and what the tool returns or raises.
pub record Run (R : Regex) (F : Type 0) : Type 0 where
  pub safety : SafetyLayer R F
  pub next_operation : ℕ
  pub steps : List (Step F)
  pub outcome : Awaited (WriteResult F)

module _ (R : Regex) (fl : Floats) (tolerance : fl.Float) (pv value : String) where
  abbrev pub ended : SafetyLayer R fl.Float → ℕ → List (Step fl.Float) → Raised → Run R fl.Float
  ended s op steps e = record { safety = s; next_operation = op; steps = steps; outcome = raised e }

  abbrev result_of :
      Value fl.Float
      → BoundsVerdict fl.Float
      → Option WriteNote
      → Verification fl.Float
      → WriteResult fl.Float
  result_of old bounds note v = record {
    old_value = old;
    new_value = value;
    readback = v.readback;
    verified = v.verified;
    tolerance = v.tolerance;
    note = note;
    bounds_note = bounds.note;
  }

  abbrev unverified : Verification fl.Float
  unverified = record { verified = none; readback = nothing; tolerance = none; note = none }

  abbrev lifted : Option ReadbackNote → Option WriteNote
  lifted none = none
  lifted (some n) = some (judged n)

  -- The end of a run whose put returned and whose readback was judged, or could not be had.
  unfoldable pub report :
      SafetyLayer R fl.Float
      → ℕ
      → List (Step fl.Float)
      → Value fl.Float
      → BoundsVerdict fl.Float
      → Option WriteNote
      → Verification fl.Float
      → Run R fl.Float
  unfolding audit_readback
  report s op steps old bounds note v = record {
    safety = audit_readback s pv value v.readback v.verified op;
    next_operation = suc op;
    steps = steps ++ line (readback_line v.verified pv value v.readback op) ∷ [];
    outcome = returned (result_of old bounds note v);
  }

  -- Behind the ALLOW line: only an `Exception` of the readback is caught.
  unfoldable pub read_back :
      SafetyLayer R fl.Float
      → ℕ
      → List (Step fl.Float)
      → Value fl.Float
      → BoundsVerdict fl.Float
      → Awaited (Reading fl.Float)
      → Run R fl.Float
  unfolding report verify_readback
  read_back s op steps old bounds (returned r) =
      let v = verify_readback fl value r tolerance in
      report s op (steps ++ get pv ∷ []) old bounds (lifted v.note) v
  read_back s op steps old bounds (raised cancelled) =
      ended s (suc op) (steps ++ get pv ∷ []) cancelled
  read_back s op steps old bounds (raised e) =
      report s op (steps ++ get pv ∷ []) old bounds (some readback_failed) unverified

  -- From the ATTEMPT line to the end.
  unfoldable pub attempt_put :
      SafetyLayer R fl.Float
      → ℕ
      → List (Step fl.Float)
      → Value fl.Float
      → BoundsVerdict fl.Float
      → Awaited (Unit {0})
      → Awaited (Reading fl.Float)
      → Run R fl.Float
  unfolding audit_write_attempt audit_write audit_write_failed audit_write_unknown failure_code
      read_back
  attempt_put s op steps old bounds (returned u) after =
      let s' = audit_write_attempt s pv value op in
      read_back (audit_write s' pv old value op) op
        (steps ++ (line (attempt pv value op) ∷ put pv value ∷ line (allow pv old value op) ∷ []))
        old bounds after
  attempt_put s op steps old bounds (raised cancelled) after =
      let s' = audit_write_attempt s pv value op in
      ended (audit_write_unknown s' pv old value op) (suc op)
        (steps
          ++ (line (attempt pv value op)
              ∷ put pv value
              ∷ line (unknown_pending pv old value op)
              ∷ []))
        cancelled
  attempt_put s op steps old bounds (raised e) after =
      let s' = audit_write_attempt s pv value op in
      ended (audit_write_failed s' pv old value (failure_code e) op) (suc op)
        (steps
          ++ (line (attempt pv value op)
              ∷ put pv value
              ∷ line (failed pv old value (failure_code e) op)
              ∷ []))
        e

  abbrev is_refused : BoundsVerdict fl.Float → Bool
  is_refused b = elim b.in_bounds [ none ↦ false | some ok_range ↦ not ok_range ]

  -- Behind the pre-read.
  unfoldable pub bounds_then_put :
      SafetyLayer R fl.Float
      → ℕ
      → List (Step fl.Float)
      → Reading fl.Float
      → Network fl.Float
      → Run R fl.Float
  unfolding check_value_in_bounds audit_bounds_deny attempt_put
  bounds_then_put s op steps old net =
      let b = check_value_in_bounds fl value old in
      if is_refused b
      then ended (audit_bounds_deny s pv value b.limit_low b.limit_high) op
          (steps ++ line (bounds_deny pv value b.limit_low b.limit_high) ∷ [])
          (epics_error pv_write_bounds)
      else attempt_put s op steps old.value b net.put net.readback

  unfoldable pub read_then_put :
      SafetyLayer R fl.Float → ℕ → Network fl.Float → Awaited (Reading fl.Float) → Run R fl.Float
  unfolding bounds_then_put
  read_then_put s op net (returned old) = bounds_then_put s op (get pv ∷ []) old net
  read_then_put s op net (raised e) = ended s op (get pv ∷ []) e

  unfoldable pub set_pv_value : SafetyLayer R fl.Float → ℕ → ℕ → Network fl.Float → Run R fl.Float
  unfolding check_write_allowed read_then_put error_code
  set_pv_value s op now net =
      let (granted, s') = check_write_allowed s pv now in
      elim granted [
        | err e ↦ ended s' op (line (deny pv (error_code e)) ∷ []) (epics_error e)
        | ok u ↦ read_then_put s' op net net.pre_read
      ]
