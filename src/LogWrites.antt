-- ===== src/LogWrites.antt =====
-- services/checkers_olog.py: the operations that write to the electronic logbook, over the gate of
-- olog_safety.py, the attachments and the client. The server, the file system and the libraries are
-- the parameter `Env`; a call of an operation is not interleaved with another one.
pub mod Operations
pub mod Protocol
pub mod Quiet
pub mod Settle
pub mod Ends
pub mod Updates
pub mod Reports
use epics_mcp_server.Prelude.{ℕ, ◌+◌, Bool, true, false, Option, List, [], ◌∷◌, ◌++◌, if◌then◌else◌}
use epics_mcp_server.Prelude.Int.{ℤ, pos, negsuc}
use epics_mcp_server.Prelude.Texts.{Text, codes, is_empty, member}
use epics_mcp_server.Prelude.Sorted.{sorted_set}
use epics_mcp_server.Errors.{EpicsError, epics, Result}
use epics_mcp_server.Urls.{UrlLib, strip}
use epics_mcp_server.Faults.{
  Fault, epics_fault, internal, olog_connection, olog_unsafe, olog_response, FaultCode, token,
  fault_code, Attempt, raised, returned, lift,
}
use epics_mcp_server.Paths.{FileSystem}
use epics_mcp_server.Olog.{
  OlogWriteGate, Checked, check_write_env_and_url, check_write_preconditions, check_write_allowed,
  audit_write, audit_write_failed,
}
use epics_mcp_server.Attach.{Disk, AttachmentPlan, AttachmentUpload, plan_attachments, read_uploads}
use epics_mcp_server.Json.{Json, Fields, get, has_key, as_text, truthy, str_of}
use epics_mcp_server.Entry.{Strings, names, require_entry, unroundtrippable_attachment_filenames}
use epics_mcp_server.LogClient.{
  Server, Endpoint, log_entry, logbook_names, tag_names, level_names, Request, Edit, or_else,
  no_texts, create_request, add_request, update_request, confirmed,
}
use epics_mcp_server.LogListing.{named_list, level_list}

pub record Env : Type 1 where
  pub urls : UrlLib
  pub py : Strings
  pub fs : FileSystem
  pub disk : Disk fs
  -- the ids that `id_factory` mints, and the configured roots
  pub ids : ℕ → Text
  pub roots_text : Text
  pub server : Server
  -- `int` of a text, `str.isdigit` and `str.isascii`
  pub int_of : Text → Option ℤ
  pub isdigit : Text → Bool
  pub isascii : Text → Bool
  -- `cfg.olog_write_user`
  pub owner : Text

-- The gate, and the requests that were made, in their order.
pub record World : Type 0 where
  pub gate : OlogWriteGate
  pub reads : List Endpoint
  pub sent : List Request

abbrev pub Action {ℓ} : Type ℓ → Type ℓ
Action A = World → Attempt A × World

abbrev pub and_then {a b} :
    {A : Type a} {B : Type b} → Attempt A × World → (A → Action B) → Attempt B × World
and_then (raised f, w) rest = (raised f, w)
and_then (returned value, w) rest = rest value w

infixl 5 ◌>>=◌ ◌>>◌
abbrev pub ◌>>=◌ {a b} : {A : Type a} {B : Type b} → Action A → (A → Action B) → Action B
(first >>= rest) w = and_then (first w) rest

abbrev pub ◌>>◌ {a b} : {A : Type a} {B : Type b} → Action A → Action B → Action B
(first >> rest) w = and_then (first w) (λ value. rest)

-- A step that neither asks the gate nor the server.
abbrev pub from {ℓ} : {A : Type ℓ} → Attempt A → Action A
from outcome w = (outcome, w)

abbrev pub refuse_when : Bool → Action (Unit {0})
refuse_when true w = (raised (epics_fault (epics "INVALID_INPUT")), w)
refuse_when false w = (returned tt, w)

abbrev checked : World → Checked → Attempt (Unit {0}) × World
checked w (outcome, g) = (lift outcome, record w { gate = g })

abbrev pub check : (OlogWriteGate → Checked) → Action (Unit {0})
check ask w = checked w (ask w.gate)

abbrev pub audited : (OlogWriteGate → OlogWriteGate) → World → World
audited line w = record w { gate = line w.gate }

abbrev pub ask : Server → Endpoint → Action Json
ask server e w = (server.read e, record w { reads = w.reads ++ e ∷ [] })

-- A read whose failure is looked at.
abbrev pub answer_of : Server → Endpoint → Action (Attempt Json)
answer_of server e w = (returned (server.read e), record w { reads = w.reads ++ e ∷ [] })

abbrev pub send : Server → Request → Action Json
send server q w = (server.write q, record w { sent = w.sent ++ q ∷ [] })

-- The `try` of a write: what failed is audited and raised again.
abbrev pub settle :
    (FaultCode → OlogWriteGate → OlogWriteGate)
    → (Fields → OlogWriteGate → OlogWriteGate)
    → Attempt Fields × World
    → Attempt Fields × World
settle failed written (raised f, w) = (raised f, audited (failed (fault_code f)) w)
settle failed written (returned entry, w) = (returned entry, audited (written entry) w)

module _ (py : Strings) (server : Server) where
  -- The request of a write, its answer, and the audit line of its end.
  unfoldable pub write_entry :
      Attempt Request
      → (FaultCode → OlogWriteGate → OlogWriteGate)
      → (Fields → OlogWriteGate → OlogWriteGate)
      → Action Fields
  write_entry request failed written w =
      settle failed written
        ((do q ← from request; payload ← send server q; from (confirmed py (returned payload))) w)

-- What an operation reports: that no logbook is configured, its result, a code, or an exception of
-- a class that it does not catch.
pub data Report {ℓ} (A : Type ℓ) : Type ℓ where
  disabled crashed : Report A
  refused : FaultCode → Report A
  reported : A → Report A
