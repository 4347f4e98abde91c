-- ===== src/Safety.antt =====
-- safety.py: the gate of PV writes. The regular expressions of Python are the parameter `Regex`;
-- opening the audit file is the argument `opens`; the clock's reading is the argument `now`.
pub mod Gate
pub mod Session
use epics_mcp_server.Prelude.{
  ℕ, ◌+◌, String, Bool, true, false, not, ◌&&◌, Option, none, some, List, [], ◌∷◌, ◌++◌, str_eq,
  if◌then◌else◌,
}
use epics_mcp_server.Prelude.Int.{ℤ, pos, negsuc}
use epics_mcp_server.Errors.{
  EpicsError, error_code, pv_write_denied, rate_limit, safety_config, Result, ok, err, ◌>>=◌, ◌>>◌,
  refuse_if,
}
use epics_mcp_server.Values.{Value}
use epics_mcp_server.Window.{Attempt, acquire}
use epics_mcp_server.Address.{Platform, Environ, Violation, write_reach_violations}

pub record Regex : Type 1 where
  pub Pattern : Type 0
  -- `re.compile`; `none` for `re.error`
  pub compile : String → Option Pattern
  pub fullmatch : Pattern → String → Bool

-- The fields of `EpicsConfig` that the gate reads.
pub record Config : Type 0 where
  pub allow_pv_write : Bool
  pub pv_write_pattern : String
  pub write_rate_limit : ℤ
  pub audit_log_file : String

-- One line of the audit log, by its event.
pub data AuditLine (F : Type 0) : Type 0 where
  deny : (pv code : String) → AuditLine F
  attempt : (pv : String) (new : String) (op : ℕ) → AuditLine F
  allow : (pv : String) (old : Value F) (new : String) (op : ℕ) → AuditLine F
  failed : (pv : String) (old : Value F) (new : String) (code : String) (op : ℕ) → AuditLine F
  unknown_pending : (pv : String) (old : Value F) (new : String) (op : ℕ) → AuditLine F
  readback_ok readback_mismatch readback_unverified :
      (pv written : String) (readback : Value F) (op : ℕ) → AuditLine F
  bounds_deny : (pv value : String) (low high : Option F) → AuditLine F

pub record SafetyLayer (R : Regex) (F : Type 0) : Type 0 where
  pub config : Config
  pub pattern : Option R.Pattern
  pub limit : ℕ
  pub timestamps : List ℕ
  pub audit : List (AuditLine F)

abbrev pub is_none {ℓ} : {A : Type ℓ} → Option A → Bool
is_none none = true
is_none (some a) = false

abbrev pub no_violations : List Violation → Bool
no_violations [] = true
no_violations (v ∷ vs) = false

module _ (R : Regex) where
  abbrev compiled : Option R.Pattern → Result (Option R.Pattern)
  compiled none = err safety_config
  compiled (some pattern) = ok (some pattern)

  unfoldable pub compile_pattern : Config → Result (Option R.Pattern)
  compile_pattern config =
      if str_eq config.pv_write_pattern ""
      then ok none
      else compiled (R.compile config.pv_write_pattern)

-- `deque(maxlen=n)` raises for a negative bound.
unfoldable pub deque_bound : ℤ → Result ℕ
deque_bound (pos n) = ok n
deque_bound (negsuc n) = err safety_config

-- The audit sink: an empty path is stderr, another must open.
unfoldable pub setup_audit_logger : Config → (String → Bool) → Result (Unit {0})
setup_audit_logger config opens =
    refuse_if (not (str_eq config.audit_log_file "") && not (opens config.audit_log_file))
      safety_config

module _ (R : Regex) (F : Type 0) (config : Config) (opens : String → Bool) where
  -- The checks of `__init__` behind the compilation of the pattern.
  unfoldable pub construct_with : Platform → Environ → Option R.Pattern → Result (SafetyLayer R F)
  unfolding deque_bound setup_audit_logger
  construct_with platform env pattern = do
    refuse_if (config.allow_pv_write && is_none pattern) safety_config
    refuse_if (config.allow_pv_write && not (no_violations (write_reach_violations platform env)))
        safety_config
    limit ← deque_bound config.write_rate_limit
    setup_audit_logger config opens
    ok (record { config = config; pattern = pattern; limit = limit; timestamps = []; audit = [] })

  unfoldable pub construct : Platform → Environ → Result (SafetyLayer R F)
  unfolding compile_pattern construct_with
  construct platform env = do
    pattern ← compile_pattern R config
    construct_with platform env pattern

abbrev pub matches : (R : Regex) → Option R.Pattern → String → Bool
matches R none pv = true
matches R (some pattern) pv = R.fullmatch pattern pv

abbrev pub readback_line : {F : Type 0} → Option Bool → String → String → Value F → ℕ → AuditLine F
readback_line (some true) pv written readback op = readback_ok pv written readback op
readback_line (some false) pv written readback op = readback_mismatch pv written readback op
readback_line none pv written readback op = readback_unverified pv written readback op

module _ {R : Regex} {F : Type 0} where
  -- `_emit`: the sink is total, and a line once written stays.
  unfoldable pub emit : SafetyLayer R F → AuditLine F → SafetyLayer R F
  emit s line = record s { audit = s.audit ++ line ∷ [] }

  abbrev tokened : SafetyLayer R F → List ℕ → SafetyLayer R F
  tokened s ts = record s { timestamps = ts }

  unfoldable pub check_write_allowed :
      SafetyLayer R F → String → ℕ → Result (Unit {0}) × SafetyLayer R F
  unfolding emit acquire error_code
  check_write_allowed s pv now =
      if not s.config.allow_pv_write
      then (err pv_write_denied, emit s (deny pv (error_code pv_write_denied)))
      else if not (matches R s.pattern pv)
      then (err pv_write_denied, emit s (deny pv (error_code pv_write_denied)))
      else let a = acquire s.limit now s.timestamps in
        if a.over_limit
        then (err rate_limit, emit (tokened s a.timestamps) (deny pv (error_code rate_limit)))
        else (ok tt, tokened s a.timestamps)

  unfoldable pub audit_write_attempt : SafetyLayer R F → String → String → ℕ → SafetyLayer R F
  unfolding emit
  audit_write_attempt s pv new op = emit s (attempt pv new op)

  unfoldable pub audit_write : SafetyLayer R F → String → Value F → String → ℕ → SafetyLayer R F
  unfolding emit
  audit_write s pv old new op = emit s (allow pv old new op)

  unfoldable pub audit_write_failed :
      SafetyLayer R F → String → Value F → String → String → ℕ → SafetyLayer R F
  unfolding emit
  audit_write_failed s pv old new code op = emit s (failed pv old new code op)

  unfoldable pub audit_write_unknown :
      SafetyLayer R F → String → Value F → String → ℕ → SafetyLayer R F
  unfolding emit
  audit_write_unknown s pv old new op = emit s (unknown_pending pv old new op)

  unfoldable pub audit_readback :
      SafetyLayer R F → String → String → Value F → Option Bool → ℕ → SafetyLayer R F
  unfolding emit
  audit_readback s pv written readback verified op =
      emit s (readback_line verified pv written readback op)

  unfoldable pub audit_bounds_deny :
      SafetyLayer R F → String → String → Option F → Option F → SafetyLayer R F
  unfolding emit
  audit_bounds_deny s pv value low high = emit s (bounds_deny pv value low high)
