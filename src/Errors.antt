-- ===== src/Errors.antt =====
-- errors.py: the exception classes, their machine-readable codes, and results that may be errors.
use epics_mcp_server.Prelude.{String, ◌≡◌, refl, Bool, true, false}

-- One constructor for each class; `epics` is a direct `EpicsError` with a code of its own.
pub data EpicsError : Type 0 where
  epics : String → EpicsError
  pv_not_found pv_timeout pv_write_denied pv_write_bounds olog_write_denied : EpicsError
  rate_limit read_rate_limit epics_connection safety_config : EpicsError

unfoldable pub error_code : EpicsError → String
error_code (epics code) = code
error_code pv_not_found = "PV_NOT_FOUND"
error_code pv_timeout = "PV_TIMEOUT"
error_code pv_write_denied = "PV_WRITE_DENIED"
error_code pv_write_bounds = "PV_WRITE_OUT_OF_BOUNDS"
error_code olog_write_denied = "OLOG_WRITE_DENIED"
error_code rate_limit = "RATE_LIMIT_EXCEEDED"
error_code read_rate_limit = "READ_RATE_LIMIT_EXCEEDED"
error_code epics_connection = "EPICS_CONNECTION_FAILED"
error_code safety_config = "SAFETY_CONFIG_INVALID"

-- A call that returns or raises one of these errors.
pub data Result {ℓ} (A : Type ℓ) : Type ℓ where
  err : EpicsError → Result A
  ok : A → Result A

-- `if test: raise error`
abbrev pub refuse_if : (test : Bool) → EpicsError → Result (Unit {0})
refuse_if false reason = ok tt
refuse_if true reason = err reason

infixl 5 ◌>>=◌ ◌>>◌
-- A raise skips the code behind it.
abbrev pub ◌>>=◌ {a b} :
    {Value : Type a} {Next : Type b} → Result Value → (Value → Result Next) → Result Next
err reason >>= rest = err reason
ok value >>= rest = rest value

abbrev pub ◌>>◌ {b} : {Next : Type b} → Result (Unit {0}) → Result Next → Result Next
err reason >> rest = err reason
ok u >> rest = rest

-- Inversion of a call that did not raise.
pub >>=-eq-ok {a b} :
    {Value : Type a} {Next : Type b} (first : Result Value) (rest : Value → Result Next)
    {end : Next}
    → (first >>= rest) ≡ ok end
    → (value : Value) × (first ≡ ok value) × (rest value ≡ ok end)
>>=-eq-ok (err reason) rest h = cc
>>=-eq-ok (ok value) rest h = (value, refl, h)
