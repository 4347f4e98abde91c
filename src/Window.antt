-- ===== src/Window.antt =====
-- The sliding-window limiter that safety.py, olog_safety.py and services/_http.py each hold a copy
-- of: `_purge_old`, and the section under `_rate_lock` that purges, tests and appends.
-- A clock reading of `time.monotonic` is a whole number of microseconds.
pub mod History
pub mod Limit
use epics_mcp_server.Prelude.{
  ℕ, ◌+◌, Bool, true, false, List, [], ◌∷◌, ◌++◌, ltb, leb, if◌then◌else◌, length,
}

-- `_WINDOW_SECONDS = 60.0`
abbrev pub window : ℕ
window = 60_000_000

-- `while timestamps and timestamps[0] < now - window: timestamps.popleft()`
unfoldable pub purge_old : ℕ → List ℕ → List ℕ
purge_old now [] = []
purge_old now (t ∷ ts) =
    let rest = purge_old now ts in if ltb (t + window) now then rest else t ∷ ts

-- `deque(maxlen=limit).append(now)`: a full deque drops its left end.
unfoldable pub push : ℕ → List ℕ → ℕ → List ℕ
push limit [] now = if leb limit 0 then [] else now ∷ []
push limit (t ∷ ts) now = if leb limit (length (t ∷ ts)) then ts ++ now ∷ [] else t ∷ ts ++ now ∷ []

pub record Attempt : Type 0 where
  pub over_limit : Bool
  pub timestamps : List ℕ

-- The section under `_rate_lock`.
unfoldable pub acquire : ℕ → ℕ → List ℕ → Attempt
unfolding purge_old push
acquire limit now ts =
    let kept = purge_old now ts in
    if leb limit (length kept)
    then record { over_limit = true; timestamps = kept }
    else record { over_limit = false; timestamps = push limit kept now }

-- The verdicts of one limiter over a sequence of calls, in order.
unfoldable pub verdicts : ℕ → List ℕ → List ℕ → List Bool
unfolding acquire
verdicts limit ts [] = []
verdicts limit ts (now ∷ calls) =
    let a = acquire limit now ts in a.over_limit ∷ verdicts limit a.timestamps calls
