-- ===== src/Faults.antt =====
-- services/olog_exceptions.py and `_olog_error_code` of services/checkers_olog.py: what a call of the
-- Olog service may raise, and the code that it is reported by.
use epics_mcp_server.Prelude.{ℕ, String, Bool, true, false, Option, none, some}
use epics_mcp_server.Errors.{EpicsError, error_code, Result, ok, err}

-- `response` carries the HTTP status where one is known; `internal` is any exception of another class.
pub data Fault : Type 0 where
  epics_fault : EpicsError → Fault
  olog_connection olog_unsafe internal : Fault
  olog_response : Option ℕ → Fault

pub data Attempt {ℓ} (A : Type ℓ) : Type ℓ where
  raised : Fault → Attempt A
  returned : A → Attempt A

-- A code is a fixed token, or one with the status in it.
pub data FaultCode : Type 0 where
  token : String → FaultCode
  olog_http : ℕ → FaultCode

-- `_olog_error_code`
unfoldable pub fault_code : Fault → FaultCode
unfolding error_code
fault_code (epics_fault e) = token (error_code e)
fault_code olog_connection = token "OLOG_CONNECTION_ERROR"
fault_code olog_unsafe = token "INVALID_INPUT"
fault_code (olog_response (some status)) = olog_http status
fault_code (olog_response none) = token "OLOG_RESPONSE_ERROR"
fault_code internal = token "INTERNAL"

-- A call that raises only errors of the package.
abbrev pub lift {ℓ} : {A : Type ℓ} → Result A → Attempt A
lift (err e) = raised (epics_fault e)
lift (ok a) = returned a

infixl 5 ◌>>=◌ ◌>>◌
abbrev pub ◌>>=◌ {a b} :
    {Value : Type a} {Next : Type b} → Attempt Value → (Value → Attempt Next) → Attempt Next
raised f >>= rest = raised f
returned value >>= rest = rest value

abbrev pub ◌>>◌ {b} : {Next : Type b} → Attempt (Unit {0}) → Attempt Next → Attempt Next
raised f >> rest = raised f
returned u >> rest = rest

abbrev pub raise_if : Bool → Fault → Attempt (Unit {0})
raise_if false f = returned tt
raise_if true f = raised f
