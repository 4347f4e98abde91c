-- ===== src/Throttle.antt =====
-- services/_http.py: `ReadThrottle`, the limiter of REST reads. The clock's reading is the argument
-- `now`.
pub mod Limit
use epics_mcp_server.Prelude.{ℕ, zero, suc, Bool, List, [], ◌∷◌, if◌then◌else◌}
use epics_mcp_server.Prelude.Int.{ℤ, pos, negsuc}
use epics_mcp_server.Errors.{read_rate_limit, Result, ok, err}
use epics_mcp_server.Window.{Attempt, acquire}

pub record ReadThrottle : Type 0 where
  pub limit : ℤ
  pub timestamps : List ℕ

unfoldable pub start : ℤ → ReadThrottle
start limit = record { limit = limit; timestamps = [] }

-- `if over_limit: raise`
abbrev pub throttle_verdict : Bool → Result (Unit {0})
throttle_verdict over = if over then err read_rate_limit else ok tt

-- The section under the lock and the raise behind it, for a limit above 0.
abbrev throttle_check : ReadThrottle → Attempt → Result (Unit {0}) × ReadThrottle
throttle_check t a = (
  if a.over_limit then err read_rate_limit else ok tt,
  record { limit = t.limit; timestamps = a.timestamps },
)

abbrev check_by : ReadThrottle → ℤ → ℕ → Result (Unit {0}) × ReadThrottle
check_by t (negsuc n) now = (ok tt, t)
check_by t (pos zero) now = (ok tt, t)
check_by t (pos (suc n)) now = throttle_check t (acquire (suc n) now t.timestamps)

-- `check`
unfoldable pub check : ReadThrottle → ℕ → Result (Unit {0}) × ReadThrottle
unfolding acquire
check t now = check_by t t.limit now

-- The outcomes of a sequence of reads through one throttle.
unfoldable pub reads : ReadThrottle → List ℕ → List (Result (Unit {0}))
unfolding check
reads t [] = []
reads t (now ∷ calls) = (check t now).0 ∷ reads (check t now).1 calls
