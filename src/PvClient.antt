-- ===== src/PvClient.antt =====
-- services/epics_client.py: reading, writing and batch reading of PVs over the provider's `get` and
-- `put`. The provider and `_format_value` are the parameter `Provider`.
pub mod Accounts
pub mod Batch
pub mod Monitor
pub mod Run
use epics_mcp_server.Prelude.{ℕ, not, ◌||◌, List, [], ◌∷◌, ltb, ◌==◌, if◌then◌else◌, length}
use epics_mcp_server.Prelude.Texts.{Text, codes, contains}
use epics_mcp_server.Errors.{
  EpicsError, epics, pv_not_found, pv_timeout, epics_connection, Result, ok, err,
}

-- What `_format_value` does: a formatted value, or an exception with its text.
pub data Formatting (E : Type 0) : Type 0 where
  formatted : E → Formatting E
  crashed : Text → Formatting E

-- What a call of the provider does: it returns, or raises a TimeoutError, another Exception with its
-- text, or a BaseException that is no Exception.
pub data Answer (A : Type 0) : Type 0 where
  answer : A → Answer A
  timed_out cancelled : Answer A
  failed : Text → Answer A

pub record Provider (V E : Type 0) : Type 0 where
  pub get : Text → Answer V
  pub get_all : List Text → Answer (List V)
  pub format : Text → V → Formatting E
  pub lower : Text → Text

-- What a call of this file does: it returns, or raises an EpicsError with the text that names the
-- cause, or a BaseException that is no Exception.
pub data Outcome (A : Type 0) : Type 0 where
  done : A → Outcome A
  refused : EpicsError → (cause : Text) → Outcome A
  aborted : Outcome A

-- The classes that `_classify_p4p_error` returns, by the text of the exception.
unfoldable pub classify_p4p_error : (Text → Text) → Text → EpicsError
unfolding contains
classify_p4p_error lower message =
    if contains (codes "not found") (lower message) || contains (codes "search") (lower message)
    then pv_not_found
    else epics_connection

module _ {V E : Type 0} (p : Provider V E) where
  abbrev pub classified : {A : Type 0} → Text → Outcome A
  classified message = refused (classify_p4p_error p.lower message) message

  abbrev pub shown : Formatting E → Outcome E
  shown (formatted e) = done e
  shown (crashed message) = classified message

  abbrev pub read_outcome : Text → Answer V → Outcome E
  read_outcome name (answer v) = shown (p.format name v)
  read_outcome name timed_out = refused pv_timeout []
  read_outcome name cancelled = aborted
  read_outcome name (failed message) = classified message

  unfoldable pub pv_get : Text → Outcome E
  unfolding classify_p4p_error
  pv_get name = read_outcome name (p.get name)

  abbrev put_outcome : Answer (Unit {0}) → Outcome (Unit {0})
  put_outcome (answer u) = done u
  put_outcome timed_out = refused pv_timeout []
  put_outcome cancelled = aborted
  put_outcome (failed message) = classified message

  -- `pv_put`, over the provider's answer to the write
  unfoldable pub pv_put : Answer (Unit {0}) → Outcome (Unit {0})
  unfolding classify_p4p_error
  pv_put written = put_outcome written

-- The text of an entry of the errors of a batch.
pub data BatchError : Type 0 where
  not_found timeout : BatchError
  message : Text → BatchError

abbrev pub error_of : EpicsError → Text → BatchError
error_of pv_not_found cause = not_found
error_of pv_timeout cause = timeout
error_of other cause = message cause

-- The envelope of a batch.
pub record BatchResult (E : Type 0) : Type 0 where
  pub results : List (Text × E)
  pub errors : List (Text × BatchError)

module _ {E : Type 0} where
  abbrev pub no_entries : BatchResult E
  no_entries = record { results = []; errors = [] }

  abbrev pub with_result : Text → E → BatchResult E → BatchResult E
  with_result name e b = record b { results = (name, e) ∷ b.results }

  abbrev pub with_error : Text → BatchError → BatchResult E → BatchResult E
  with_error name x b = record b { errors = (name, x) ∷ b.errors }

  abbrev pub add_outcome : Text → Outcome E → Outcome (BatchResult E) → Outcome (BatchResult E)
  add_outcome name (done e) (done b) = done (with_result name e b)
  add_outcome name (refused x cause) (done b) = done (with_error name (error_of x cause) b)
  add_outcome name aborted rest = aborted
  add_outcome name (done e) rest = rest
  add_outcome name (refused x cause) rest = rest

  abbrev pub add_formatting : Text → Formatting E → BatchResult E → BatchResult E
  add_formatting name (formatted e) b = with_result name e b
  add_formatting name (crashed cause) b = with_error name (message cause) b

module _ {V E : Type 0} (p : Provider V E) where
  -- The fallback of `pv_get_batch`: every PV is read on its own.
  unfoldable pub read_each : List Text → Outcome (BatchResult E)
  unfolding pv_get
  read_each [] = done no_entries
  read_each (name ∷ names) = add_outcome name (pv_get p name) (read_each names)

  -- The loop over the values of the batch, as many as the names.
  unfoldable pub format_each : List Text → List V → BatchResult E
  format_each (name ∷ names) (v ∷ vs) = add_formatting name (p.format name v) (format_each names vs)
  format_each _ _ = no_entries

  abbrev pub batch_outcome : List Text → Answer (List V) → Outcome (BatchResult E)
  batch_outcome names (answer vs) =
      if length vs == length names
      then done (format_each names vs)
      else refused (epics "UPSTREAM_CONTRACT_ERROR") []
  batch_outcome names timed_out = read_each names
  batch_outcome names (failed cause) = read_each names
  batch_outcome names cancelled = aborted

  unfoldable pub pv_get_batch : ℕ → List Text → Outcome (BatchResult E)
  unfolding read_each format_each
  pv_get_batch max_batch_size names =
      if ltb max_batch_size (length names)
      then refused (epics "BATCH_TOO_LARGE") []
      else batch_outcome names (p.get_all names)
