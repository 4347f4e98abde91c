-- ===== src/Olog.antt =====
-- olog_safety.py: the gate of logbook writes.
pub mod Gate
pub mod Granted
use epics_mcp_server.Prelude.{
  ℕ, zero, suc, ◌+◌, String, Bool, true, false, not, ◌&&◌, ◌||◌, Option, none, some, List, [], ◌∷◌,
  ◌++◌, ltb, str_eq, if◌then◌else◌, all,
}
use epics_mcp_server.Prelude.Int.{ℤ, pos, negsuc}
use epics_mcp_server.Prelude.Texts.{split, member, Text, is_empty, text_eq}
use epics_mcp_server.Errors.{
  EpicsError, error_code, olog_write_denied, rate_limit, safety_config, Result, ok, err, ◌>>=◌,
  ◌>>◌, refuse_if,
}
use epics_mcp_server.Urls.{UrlLib, strip, url_host, is_loopback_url, is_https_url}
use epics_mcp_server.Faults.{FaultCode}
use epics_mcp_server.Window.{Attempt, acquire}
use epics_mcp_server.Safety.{deque_bound}

-- The fields of `EpicsConfig` that the gate reads.
pub record Config : Type 0 where
  pub allow_olog_write : Bool
  pub olog_url : Text
  pub olog_write_allow_remote : Bool
  pub olog_write_logbooks : Text
  pub olog_write_url_allowlist : Text
  pub olog_write_rate_limit : ℤ
  pub olog_attach_max_bytes : ℕ
  pub audit_log_file : String

-- The metadata of the audit lines; the source formats each line from these alone.
pub data AuditLine : Type 0 where
  deny : (code caller : String) → AuditLine
  allow :
      (logbooks : List Text) (level : Option Text) (title_len : ℕ) (entry_id owner : Text)
      (in_reply_to : Option Text) (attachments : Option (ℕ × ℕ)) (caller : String)
      → AuditLine
  failed :
      (logbooks : List Text) (level : Option Text) (title_len : ℕ) (code : FaultCode)
      (entry_id in_reply_to : Option Text) (caller : String)
      → AuditLine

pub record OlogWriteGate : Type 0 where
  pub config : Config
  pub allowed_logbooks : List Text
  pub allowed_urls : List Text
  pub limit : ℕ
  pub timestamps : List ℕ
  pub audit : List AuditLine

abbrev keep_token : Text → List Text → List Text
keep_token [] ts = ts
keep_token (c ∷ t) ts = (c ∷ t) ∷ ts

stripped : UrlLib → List Text → List Text
unfolding strip
stripped u [] = []
stripped u (t ∷ ts) = keep_token (strip u.platform.space t) (stripped u ts)

-- `_split_csv`; the order and the repetitions of the list are never read.
unfoldable pub split_csv : UrlLib → Text → List Text
unfolding split stripped
split_csv u value = stripped u (split b',' value)

abbrev opens_audit : Config → (String → Bool) → Bool
opens_audit config opens = str_eq config.audit_log_file "" || opens config.audit_log_file

unfoldable pub construct : UrlLib → Config → (String → Bool) → Result OlogWriteGate
unfolding split_csv deque_bound
construct u config opens = do
  limit ← deque_bound config.olog_write_rate_limit
  refuse_if (not (opens_audit config opens)) safety_config
  ok (record {
    config = config;
    allowed_logbooks = split_csv u config.olog_write_logbooks;
    allowed_urls = split_csv u config.olog_write_url_allowlist;
    limit = limit;
    timestamps = [];
    audit = [];
  })

abbrev pub is_given {ℓ} : {A : Type ℓ} → Option A → Bool
is_given none = false
is_given (some a) = true

unfoldable pub emit : OlogWriteGate → AuditLine → OlogWriteGate
emit g line = record g { audit = g.audit ++ line ∷ [] }

abbrev pub Checked : Type 0
Checked = Result (Unit {0}) × OlogWriteGate

-- `_audit_deny` and the raise behind it
abbrev deny_with : OlogWriteGate → (code : String) → EpicsError → String → Checked
deny_with g code e caller = (err e, emit g (deny code caller))

abbrev pub denied : OlogWriteGate → String → Checked
denied g caller = deny_with g "OLOG_WRITE_DENIED" olog_write_denied caller

abbrev pub then_check : Checked → (OlogWriteGate → Checked) → Checked
then_check (err e, g) k = (err e, g)
then_check (ok u, g) k = k g

abbrev tokened : OlogWriteGate → List ℕ → OlogWriteGate
tokened g ts = record g { timestamps = ts }

module _ (u : UrlLib) where
  unfoldable pub url_write_allowed : OlogWriteGate → Bool
  unfolding url_host is_loopback_url is_https_url member
  url_write_allowed g =
      let url = g.config.olog_url in
      if not (is_given (url_host u url))
      then false
      else if is_loopback_url u url
      then true
      else g.config.olog_write_allow_remote && (member url g.allowed_urls && is_https_url u url)

  unfoldable pub check_write_env_and_url : OlogWriteGate → String → Checked
  unfolding url_write_allowed emit
  check_write_env_and_url g caller =
      if not g.config.allow_olog_write
      then denied g caller
      else if not (url_write_allowed g)
      then denied g caller
      else (ok tt, g)

  abbrev no_logbooks : List Text → Bool
  no_logbooks [] = true
  no_logbooks (l ∷ ls) = false

  abbrev pub check_logbooks : List Text → String → OlogWriteGate → Checked
  check_logbooks logbooks caller g =
      if not (all (λ l. member l g.allowed_logbooks) logbooks) then denied g caller else (ok tt, g)

  unfoldable pub check_write_preconditions : OlogWriteGate → List Text → String → Checked
  unfolding check_write_env_and_url
  check_write_preconditions g logbooks caller =
      if no_logbooks logbooks
      then denied g caller
      else then_check (check_write_env_and_url g caller) (check_logbooks logbooks caller)

  unfoldable pub check_size_and_rate : ℕ → ℕ → String → OlogWriteGate → Checked
  unfolding emit acquire error_code
  check_size_and_rate bytes now caller g =
      if ltb g.config.olog_attach_max_bytes bytes
      then deny_with g "OLOG_ATTACH_TOO_LARGE" olog_write_denied caller
      else let a = acquire g.limit now g.timestamps in
        if a.over_limit
        then deny_with (tokened g a.timestamps) (error_code rate_limit) rate_limit caller
        else (ok tt, tokened g a.timestamps)

  unfoldable pub check_write_allowed : OlogWriteGate → List Text → String → ℕ → ℕ → Checked
  unfolding check_write_preconditions check_size_and_rate
  check_write_allowed g logbooks caller bytes now =
      then_check (check_write_preconditions g logbooks caller)
        (check_size_and_rate bytes now caller)

abbrev attach_part : ℕ → ℕ → Option (ℕ × ℕ)
attach_part zero bytes = none
attach_part (suc n) bytes = some (suc n, bytes)

unfoldable pub audit_write :
    OlogWriteGate
    → Text
    → List Text
    → Option Text
    → ℕ
    → Text
    → Option Text
    → String
    → ℕ
    → ℕ
    → OlogWriteGate
unfolding emit
audit_write g entry_id logbooks level title_len owner in_reply_to caller count bytes =
    emit g
      (allow logbooks level title_len entry_id owner in_reply_to (attach_part count bytes) caller)

unfoldable pub audit_write_failed :
    OlogWriteGate
    → List Text
    → Option Text
    → ℕ
    → FaultCode
    → Option Text
    → String
    → Option Text
    → OlogWriteGate
unfolding emit
audit_write_failed g logbooks level title_len code in_reply_to caller entry_id =
    emit g (failed logbooks level title_len code entry_id in_reply_to caller)
