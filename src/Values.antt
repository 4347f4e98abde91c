-- ===== src/Values.antt =====
-- The Python objects that a PV read may carry, and the operations on floats that the checks use.
-- Floats are a parameter: their type and the functions of Python that the code calls.
use epics_mcp_server.Prelude.{ℕ, String, Bool, Option, List}
use epics_mcp_server.Prelude.Int.{ℤ}

pub record Floats : Type 1 where
  pub Float : Type 0
  -- `float(text)`; `none` for its ValueError
  pub parse : String → Option Float
  -- `float(n)` of an integer
  pub of_int : ℤ → Float
  pub zero_float : Float
  pub one_float : Float
  pub isfinite : Float → Bool
  pub le : Float → Float → Bool
  pub lt : Float → Float → Bool
  -- `math.isclose(a, b, rel_tol=…, abs_tol=…)`
  pub isclose : (a b rel_tol abs_tol : Float) → Bool
  -- `str(v)` of a value that is neither a number nor None
  pub text_of : ℕ → String

-- `other n` is any object that is none of these, such as a list or a dict.
pub data Value (F : Type 0) : Type 0 where
  nothing : Value F
  bool : Bool → Value F
  int : ℤ → Value F
  float : F → Value F
  str : String → Value F
  other : ℕ → Value F

-- The parts of the dict that `pv_get` returns that the checks read. A key that is missing reads as
-- None; `control` is `none` where there is no such dict, and `choices` where `enum` is no mapping
-- or its `choices` are no list.
pub record Control (F : Type 0) : Type 0 where
  pub limit_low : Value F
  pub limit_high : Value F
  pub min_step : Value F

pub record Reading (F : Type 0) : Type 0 where
  pub value : Value F
  pub control : Option (Control F)
  pub choices : Option (List (Value F))
  pub note : Option String
