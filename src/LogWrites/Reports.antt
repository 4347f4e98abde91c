-- ===== src/LogWrites/Reports.antt =====
-- What a caller of one of the three operations is told, and what was done by then.
use epics_mcp_server.Prelude.{
  ℕ, String, ◌≡◌, refl, ap, ◌⊎◌, inl, inr, Bool, true, false, not, ◌&&◌, List, if◌then◌else◌,
}
use epics_mcp_server.Prelude.Texts.{Text, is_empty}
use epics_mcp_server.Urls.{strip}
use epics_mcp_server.Errors.{epics, error_code}
use epics_mcp_server.Faults.{
  Fault, epics_fault, internal, olog_connection, olog_unsafe, olog_response, FaultCode, fault_code,
  token, Attempt, raised, returned,
}
use epics_mcp_server.LogClient.{Request, Edit}
use epics_mcp_server.LogWrites.{Env, World, Report, disabled, crashed, refused, reported}
use epics_mcp_server.LogWrites.Protocol.{IsEnd}
use epics_mcp_server.LogWrites.Operations.{
  Written, report, query_olog_update, invalid, nothing_edited, blank_title,
}
use epics_mcp_server.LogWrites.Updates.{Updates, update_run-IsEnd}

-- The code that a fault is reported by; one of the connection is reported as an EpicsConnectionError.
abbrev pub Tells : Fault → FaultCode → Type 0
Tells f code =
    (code ≡ fault_code f) ⊎ ((f ≡ olog_connection) × (code ≡ token "EPICS_CONNECTION_FAILED"))

module _ (env : Env) (now : ℕ) (caller : String) (Fits : List Text → Request → Type 0)
    (w : World) where
  abbrev End : Attempt Written × World → Type 0
  End end = IsEnd now env.urls caller Fits w.gate w.sent end

  -- A result is reported at the end of a granted write; an error, at the end of one that was not
  -- granted or that failed.
  unfoldable pub IsTold : Report Written × World → Type 0
  IsTold (disabled, w') = (is_empty w.gate.config.olog_url ≡ true) × (w' ≡ w)
  IsTold (crashed, w') = End (raised internal, w')
  IsTold (refused code, w') = (f : Fault) × Tells f code × End (raised f, w')
  IsTold (reported a, w') = End (returned a, w')

  -- And without a configured logbook it is said so, and nothing is done.
  pub record IsReport (o : Report Written × World) : Type 0 where
    pub told : IsTold o
    pub unconfigured : is_empty w.gate.config.olog_url ≡ true → o ≡ (disabled, w)

  report-IsTold : (end : Attempt Written × World) → End end → IsTold (report end)
  unfolding IsTold fault_code error_code
  report-IsTold (returned a, w') h = h
  report-IsTold (raised (epics_fault e), w') h = (epics_fault e, inl refl, h)
  report-IsTold (raised olog_connection, w') h = (olog_connection, inr (refl, refl), h)
  report-IsTold (raised olog_unsafe, w') h = (olog_unsafe, inl refl, h)
  report-IsTold (raised internal, w') h = h
  report-IsTold (raised (olog_response o), w') h = (olog_response o, inl refl, h)

  disabled-IsTold : is_empty w.gate.config.olog_url ≡ true → IsTold (disabled, w)
  unfolding IsTold
  disabled-IsTold h = (h, refl)

  invalid-IsTold : IsTold (invalid w)
  unfolding IsTold fault_code
  invalid-IsTold = (
    epics_fault (epics "INVALID_INPUT"),
    inl refl,
    inl (record { same_sent = refl; line = inl refl; tokens = inl refl }),
  )

  -- A guard in front of an operation.
  guarded :
      (test : Bool) (r rest : Report Written × World)
      → (test ≡ true → IsTold r)
      → IsTold rest
      → IsTold (if test then r else rest)
  guarded true r rest a b = a refl
  guarded false r rest a b = b

  -- The report of an operation that begins with the test for a configured logbook.
  configured-IsReport :
      (rest : Report Written × World)
      → IsTold rest
      → IsReport (if is_empty w.gate.config.olog_url then (disabled, w) else rest)
  configured-IsReport rest h = record {
    told = guarded (is_empty w.gate.config.olog_url) (disabled, w) rest disabled-IsTold h;
    unconfigured = λ e. ap (λ (b : Bool). if b then (disabled, w) else rest) e;
  }

module _ (env : Env) (now : ℕ) where
  -- Whatever the server and the files hold, an update of a logbook entry that reports a result was
  -- granted by the gate for the logbooks that the entry is in and will be in, took one token, sent
  -- one request, which submits the entry that was read with only the edit overlaid and every
  -- attachment named, and left one ALLOW line; an error ends a run in which nothing was sent, no
  -- token taken and at most a refusal audited, or a granted one that left nothing, or one FAILED
  -- line with the fault's code; and without a configured logbook nothing is done.
  pub query_olog_update-IsReport :
      (log_id : Text) (edit : Edit) (w : World)
      → IsReport env now "update_log_entry"
          (Updates env now "update_log_entry" (strip env.urls.platform.space log_id) edit)
          w
          (query_olog_update env now log_id edit w)
  unfolding query_olog_update
  query_olog_update-IsReport log_id edit w =
      let Fits = Updates env now "update_log_entry" (strip env.urls.platform.space log_id) edit in
      let invalid_end = invalid-IsTold env now "update_log_entry" Fits w in
      configured-IsReport env now "update_log_entry" Fits w _ (
        guarded env now "update_log_entry" Fits w (nothing_edited edit) (invalid w) _
          (λ e. invalid_end)
          (guarded env now "update_log_entry" Fits w
            (not (
              env.isascii (strip env.urls.platform.space log_id)
              && env.isdigit (strip env.urls.platform.space log_id)))
            (invalid w) _ (λ e. invalid_end)
            (guarded env now "update_log_entry" Fits w
              (blank_title env.urls.platform.space edit.title) (invalid w) _ (λ e. invalid_end)
              (report-IsTold env now "update_log_entry" Fits w _
                (update_run-IsEnd env now "update_log_entry" _ edit w)))))
