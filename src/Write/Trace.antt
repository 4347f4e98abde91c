-- ===== src/Write/Trace.antt =====
-- The order of the I/O calls and audit lines of a run.
use epics_mcp_server.Prelude.{
  ℕ, String, ◌≡◌, refl, ◌≢◌, inl, inr, Option, List, [], ◌∷◌, Bool-cases,
}
use epics_mcp_server.Errors.{EpicsError, error_code, pv_write_bounds, Result, ok, err}
use epics_mcp_server.Values.{Floats, Value, Reading}
use epics_mcp_server.Safety.{
  Regex, deny, attempt, allow, failed, unknown_pending, bounds_deny, readback_line, SafetyLayer,
  check_write_allowed,
}
use epics_mcp_server.Bounds.{BoundsVerdict, check_value_in_bounds}
use epics_mcp_server.Write.{
  Raised, epics_error, internal, cancelled, Awaited, returned, raised, failure_code, WriteResult,
  Step, get, put, line, Network, Run, ended, attempt_put, is_refused, bounds_then_put,
  read_then_put, set_pv_value,
}

-- The runs that the audit protocol allows. Each put stands directly behind its ATTEMPT line and
-- directly before the one terminal line of the same operation, which tells the put's outcome.
pub data Protocol {F : Type 0} (pv value : String) (op : ℕ) (steps : List (Step F))
    (outcome : Awaited (WriteResult F)) : Type 0 where
  denied :
      (e : EpicsError)
      → steps ≡ line (deny pv (error_code e)) ∷ []
      → outcome ≡ raised (epics_error e)
      → Protocol pv value op steps outcome
  unread :
      (e : Raised) → steps ≡ get pv ∷ [] → outcome ≡ raised e → Protocol pv value op steps outcome
  out_of_bounds :
      (low high : Option F)
      → steps ≡ get pv ∷ line (bounds_deny pv value low high) ∷ []
      → outcome ≡ raised (epics_error pv_write_bounds)
      → Protocol pv value op steps outcome
  put_failed :
      (old : Value F) (e : Raised)
      → e ≢ cancelled
      → steps
        ≡ get pv
          ∷ line (attempt pv value op)
          ∷ put pv value
          ∷ line (failed pv old value (failure_code e) op)
          ∷ []
      → outcome ≡ raised e
      → Protocol pv value op steps outcome
  put_cancelled :
      (old : Value F)
      → steps
        ≡ get pv
          ∷ line (attempt pv value op)
          ∷ put pv value
          ∷ line (unknown_pending pv old value op)
          ∷ []
      → outcome ≡ raised cancelled
      → Protocol pv value op steps outcome
  readback_cancelled :
      (old : Value F)
      → steps
        ≡ get pv
          ∷ line (attempt pv value op)
          ∷ put pv value
          ∷ line (allow pv old value op)
          ∷ get pv
          ∷ []
      → outcome ≡ raised cancelled
      → Protocol pv value op steps outcome
  completed :
      (r : WriteResult F)
      → steps
        ≡ get pv
          ∷ line (attempt pv value op)
          ∷ put pv value
          ∷ line (allow pv r.old_value value op)
          ∷ get pv
          ∷ line (readback_line r.verified pv value r.readback op)
          ∷ []
      → outcome ≡ returned r
      → Protocol pv value op steps outcome

module _ (R : Regex) (fl : Floats) (tolerance : fl.Float) (pv value : String) where
  Follows : ℕ → Run R fl.Float → Type 0
  Follows op run = Protocol pv value op run.steps run.outcome

  attempt-Protocol :
      (s : SafetyLayer R fl.Float) (op : ℕ) (old : Value fl.Float) (b : BoundsVerdict fl.Float)
      (done : Awaited (Unit {0})) (after : Awaited (Reading fl.Float))
      → Follows op (attempt_put R fl tolerance pv value s op (get pv ∷ []) old b done after)
  unfolding Follows attempt_put
  attempt-Protocol s op old b (returned u) (returned r) = completed _ refl refl
  attempt-Protocol s op old b (returned u) (raised cancelled) = readback_cancelled old refl refl
  attempt-Protocol s op old b (returned u) (raised internal) = completed _ refl refl
  attempt-Protocol s op old b (returned u) (raised (epics_error e)) = completed _ refl refl
  attempt-Protocol s op old b (raised cancelled) after = put_cancelled old refl refl
  attempt-Protocol s op old b (raised internal) after = put_failed old internal (λ e. cc) refl refl
  attempt-Protocol s op old b (raised (epics_error e)) after =
      put_failed old (epics_error e) (λ e. cc) refl refl

  bounds-Protocol :
      (s : SafetyLayer R fl.Float) (op : ℕ) (old : Reading fl.Float) (net : Network fl.Float)
      → Follows op (bounds_then_put R fl tolerance pv value s op (get pv ∷ []) old net)
  unfolding Follows bounds_then_put
  bounds-Protocol s op old net =
      elim (Bool-cases (is_refused R fl tolerance pv value (check_value_in_bounds fl value old))) [
        | inl e ↦ rw e (out_of_bounds _ _ refl refl)
        | inr e ↦ rw e (
            attempt-Protocol s op old.value (check_value_in_bounds fl value old) net.put
              net.readback)
      ]

  read-Protocol :
      (s : SafetyLayer R fl.Float) (op : ℕ) (net : Network fl.Float)
      (pre : Awaited (Reading fl.Float))
      → Follows op (read_then_put R fl tolerance pv value s op net pre)
  unfolding read_then_put
  read-Protocol s op net (returned old) = bounds-Protocol s op old net
  read-Protocol s op net (raised e) = unfold Follows in unread e refl refl

  checked-Protocol :
      (op : ℕ) (net : Network fl.Float) (granted : Result (Unit {0})) (s : SafetyLayer R fl.Float)
      → Follows op (elim granted [
        | err e ↦
            ended R fl tolerance pv value s op (line (deny pv (error_code e)) ∷ []) (epics_error e)
        | ok u ↦ read_then_put R fl tolerance pv value s op net net.pre_read
      ])
  checked-Protocol op net (err e) s = unfold Follows in denied e refl refl
  checked-Protocol op net (ok u) s = read-Protocol s op net net.pre_read

  -- Whatever the network does, a run of the tool follows the audit protocol: a denial or a refused
  -- value ends it before any put, and a put stands between its ATTEMPT line and the terminal line
  -- that tells its outcome; what the tool returns or raises is the outcome that the lines tell.
  pub set_pv_value-Protocol :
      (s : SafetyLayer R fl.Float) (op now : ℕ) (net : Network fl.Float)
      → Protocol pv value op
          (set_pv_value R fl tolerance pv value s op now net).steps
          (set_pv_value R fl tolerance pv value s op now net).outcome
  unfolding set_pv_value Follows
  set_pv_value-Protocol s op now net =
      checked-Protocol op net (check_write_allowed s pv now).0 (check_write_allowed s pv now).1
