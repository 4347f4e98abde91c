-- ===== src/LogWrites/Quiet.antt =====
-- The steps of an operation before its gate is asked for a token: each leaves the gate alone, or ends
-- the operation with nothing sent.
use mathlib.Core.Path.{subst}
use epics_mcp_server.Prelude.{
  ℕ, String, ◌≡◌, refl, ap, inl, Bool, true, false, not, Option, none, some, List, arith, all,
}
use epics_mcp_server.Prelude.Texts.{Text, is_empty, member}
use epics_mcp_server.Errors.{EpicsError, epics, olog_write_denied, ok, err}
use epics_mcp_server.Urls.{UrlLib, strip}
use epics_mcp_server.Faults.{epics_fault, Attempt, raised, returned}
use epics_mcp_server.Olog.{
  OlogWriteGate, Checked, check_write_env_and_url, check_write_preconditions,
}
use epics_mcp_server.Olog.Gate.{
  IsRefused, preconditions-IsRefused, preconditions_kept, env_and_url-err, env_and_url_kept,
  denied-IsRefused,
}
use epics_mcp_server.Json.{Fields, Json}
use epics_mcp_server.LogClient.{Request, Endpoint, level_names, log_entry}
use epics_mcp_server.LogListing.{level_list, named_list, raw_entry_of}
use epics_mcp_server.LogWrites.{Env, World, from, check, checked, ask, refuse_when, ◌>>=◌}
use epics_mcp_server.LogWrites.Protocol.{IsQuiet, IsQuiet-IsQuiet, refused-IsUnsent}
use epics_mcp_server.LogWrites.Operations.{
  reject_unknown_level, known_names, read_entry, or_not_found,
}

module _ (now : ℕ) where
  pub from_IsQuiet {ℓ} :
      {A : Type ℓ} (g : OlogWriteGate) (s : List Request) (outcome : Attempt A) (w : World)
      → w.gate ≡ g
      → w.sent ≡ s
      → IsQuiet now g s (outcome, w)
  from_IsQuiet g s (returned value) w q q' = (q, q')
  from_IsQuiet g s (raised f) w q q' = record {
    same_sent = q';
    line = inl (ap (λ (x : OlogWriteGate). x.audit) q);
    tokens = inl (ap (λ (x : OlogWriteGate). x.timestamps) q);
  }

  module _ (u : UrlLib) (caller : String) where
    check-IsQuiet :
        (g : OlogWriteGate) (s : List Request) (w : World) (question : OlogWriteGate → Checked)
        → w.gate ≡ g
        → w.sent ≡ s
        → ((question w.gate).0 ≡ ok tt → (question w.gate).1 ≡ w.gate)
        → ((e : EpicsError)
            → (question w.gate).0 ≡ err e
            → IsRefused w.gate (question w.gate).1 caller now e)
        → IsQuiet now g s (check question w)
    check-IsQuiet g s w question q q' kept refusal =
        subst (λ x. IsQuiet now x s (check question w)) q
          (subst (λ x. IsQuiet now w.gate x (check question w)) q'
            (by_answer (question w.gate) kept refusal))
      where
        by_answer :
            (c : Checked)
            → (c.0 ≡ ok tt → c.1 ≡ w.gate)
            → ((e : EpicsError) → c.0 ≡ err e → IsRefused w.gate c.1 caller now e)
            → IsQuiet now w.gate w.sent (checked w c)
        by_answer (ok t, g') kept refusal = (kept refl, refl)
        by_answer (err e, g') kept refusal = refused-IsUnsent now u caller w e g' (refusal e refl)

    pub early-IsQuiet :
        (g : OlogWriteGate) (s : List Request) (w : World)
        → w.gate ≡ g
        → w.sent ≡ s
        → IsQuiet now g s (check (λ g. check_write_env_and_url u g caller) w)
    early-IsQuiet g s w q q' =
        check-IsQuiet g s w (λ g. check_write_env_and_url u g caller) q q'
          (env_and_url_kept u w.gate caller now olog_write_denied)
          (λ e h.
            denied-IsRefused u w.gate caller now e _ (env_and_url-err u w.gate caller now e h) h)

    pub logbooks-IsQuiet :
        (ls : List Text) (g : OlogWriteGate) (s : List Request) (w : World)
        → w.gate ≡ g
        → w.sent ≡ s
        → IsQuiet now g s (check (λ g. check_write_preconditions u g ls caller) w)
    logbooks-IsQuiet ls g s w q q' =
        check-IsQuiet g s w (λ g. check_write_preconditions u g ls caller) q q'
          (preconditions_kept u w.gate ls caller)
          (λ e h. preconditions-IsRefused u w.gate caller now e ls h)

  module _ (env : Env) (g : OlogWriteGate) (s : List Request) where
    pub refuse-IsQuiet :
        (test : Bool) (w : World) → w.gate ≡ g → w.sent ≡ s → IsQuiet now g s (refuse_when test w)
    refuse-IsQuiet true w q q' =
        from_IsQuiet {A = Unit {0}} g s (raised (epics_fault (epics "INVALID_INPUT"))) w q q'
    refuse-IsQuiet false w q q' = (q, q')

    listed-IsQuiet {ℓ} :
        {L : Type ℓ} (listing : Json → Attempt L) (endpoint : Endpoint) (test : L → Bool)
        (w : World)
        → w.gate ≡ g
        → w.sent ≡ s
        → IsQuiet now g s (
            (ask env.server endpoint >>= λ payload.
            from (listing payload) >>= λ known. refuse_when (test known))
              w)
    listed-IsQuiet listing endpoint test w q q' =
        IsQuiet-IsQuiet now g s (ask env.server endpoint w) _
          (from_IsQuiet g s (env.server.read endpoint) _ q q')
          (λ payload w1 e1 r r'.
            IsQuiet-IsQuiet now g s (from (listing payload) w1) _
              (from_IsQuiet g s (listing payload) w1 r r')
              (λ known w2 e2 z z'. refuse-IsQuiet (test known) w2 z z'))

    pub level-IsQuiet :
        (level : Option Text) (w : World)
        → w.gate ≡ g
        → w.sent ≡ s
        → IsQuiet now g s (reject_unknown_level env level w)
    unfolding reject_unknown_level
    level-IsQuiet none w q q' = (q, q')
    level-IsQuiet (some level) w q q' =
        IsQuiet-IsQuiet now g s (refuse_when (is_empty (strip env.urls.platform.space level)) w) _
          (refuse-IsQuiet _ w q q')
          (λ t w1 e1 r r'.
            listed-IsQuiet level_list level_names (λ known. not (member level known.0)) w1 r r')

    pub names-IsQuiet :
        (endpoint : Endpoint) (given : Option (List Text)) (w : World)
        → w.gate ≡ g
        → w.sent ≡ s
        → IsQuiet now g s (known_names env endpoint given w)
    names-IsQuiet endpoint none w q q' = (q, q')
    names-IsQuiet endpoint (some given) w q q' =
        listed-IsQuiet named_list endpoint (λ known. not (all (λ l. member l known) given)) w q q'

    pub read_entry-IsQuiet :
        (log_id : Text) (w : World)
        → w.gate ≡ g
        → w.sent ≡ s
        → IsQuiet now g s (read_entry env log_id w)
    unfolding read_entry
    read_entry-IsQuiet log_id w q q' =
        from_IsQuiet g s (or_not_found (raw_entry_of (env.server.read (log_entry log_id)))) _ q q'

-- The entry that is read is the one that the server answers with.
pub read_entry_found :
    (env : Env) (log_id : Text) (w w' : World) (raw : Fields)
    → read_entry env log_id w ≡ (returned raw, w')
    → raw_entry_of (env.server.read (log_entry log_id)) ≡ returned (some raw)
unfolding read_entry
read_entry_found env log_id w w' raw h =
    by_answer (raw_entry_of (env.server.read (log_entry log_id)))
      (ap (λ (r : Attempt Fields × World). r.0) h)
  where
    by_answer :
        (a : Attempt (Option Fields)) → or_not_found a ≡ returned raw → a ≡ returned (some raw)
    by_answer (raised f) h = cc
    by_answer (returned none) h = cc
    by_answer (returned (some raw')) h = ground (arith, h)
