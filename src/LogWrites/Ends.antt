-- ===== src/LogWrites/Ends.antt =====
-- How the three operations end.
use epics_mcp_server.Prelude.{
  ℕ, String, ◌≡◌, refl, sym, ap, ◌∙◌, Option, none, some, List, [], ◌∷◌, arith,
}
use epics_mcp_server.Prelude.Texts.{Text, codes}
use epics_mcp_server.Faults.{FaultCode, Attempt, returned}
use epics_mcp_server.Olog.{Config, OlogWriteGate, AuditLine, audit_write, audit_write_failed, emit}
use epics_mcp_server.Attach.{AttachmentPlan, plan_attachments, read_uploads, AttachmentUpload}
use epics_mcp_server.Json.{Fields, get}
use epics_mcp_server.Entry.{names}
use epics_mcp_server.LogClient.{
  Request, put_logs, put_multipart, post_multipart, create_request, log_entry, LogJson, file_parts,
}
use epics_mcp_server.LogClient.Overlay.{IsAdditive, add_request-IsAdditive}
use epics_mcp_server.LogListing.{raw_entry_of}
use epics_mcp_server.LogWrites.{Env, World, ◌>>=◌, ◌>>◌, from, write_entry}
use epics_mcp_server.LogWrites.Protocol.{IsEnd, IsAllow, IsFailed, quiet-IsEnd, granted-IsEnd}
use epics_mcp_server.LogWrites.Settle.{IsSettled-from, IsSettled-after, write_entry-IsSettled}
use epics_mcp_server.LogWrites.Quiet.{
  from_IsQuiet, early-IsQuiet, logbooks-IsQuiet, level-IsQuiet, read_entry-IsQuiet,
  read_entry_found,
}
use epics_mcp_server.LogWrites.Operations.{
  reject_unknown_level, create_run, add_run, described, read_entry, check_all, read_planned,
}

-- The logbooks that a create names.
abbrev request_logbooks : Request → Option (List Text)
request_logbooks (put_logs body in_reply_to) = some body.logbooks
request_logbooks (put_multipart body in_reply_to meta parts) = some body.logbooks
request_logbooks (post_multipart j parts) = none

sent_logbooks :
    (title : Text) (logbooks : List Text) (description level : Option Text)
    (tags : Option (List Text)) (in_reply_to : Option Text) (uploads : List AttachmentUpload)
    (q : Request)
    → returned (create_request title logbooks description level tags in_reply_to uploads)
      ≡ returned q
    → request_logbooks q ≡ some logbooks
unfolding create_request
sent_logbooks title logbooks description level tags in_reply_to [] q h = ground (arith, h)
sent_logbooks title logbooks description level tags in_reply_to (u ∷ us) q h = ground (arith, h)

returned_inj : {A : Type 0} {a b : A} → returned a ≡ returned b → a ≡ b
returned_inj h = cc

module _ (env : Env) (now : ℕ) (caller : String) where
  -- The end of an operation with attachments, from the granting check on.
  planned-IsEnd {b} :
      {B : Type b} (Fits : List Text → Request → Type 0) (g : OlogWriteGate) (s : List Request)
      (w : World) (ls : List Text) (plan : AttachmentPlan env.fs)
      (request : List AttachmentUpload → Attempt Request) (failed_line : FaultCode → AuditLine)
      (written_line : Fields → AuditLine) (final : List AttachmentUpload → Fields → B)
      → w.gate ≡ g
      → w.sent ≡ s
      → ((code : FaultCode) → IsFailed ls code (failed_line code))
      → ((entry : Fields) → IsAllow ls (written_line entry))
      → ((uploads : List AttachmentUpload) (q : Request)
          → read_uploads env.fs env.disk plan.specs g.config.olog_attach_max_bytes
            ≡ returned uploads
          → request uploads ≡ returned q
          → Fits ls q)
      → IsEnd now env.urls caller Fits g s (
          (do
            check_all env now caller ls plan.total_bytes
            uploads ← read_planned env now caller plan
            entry ←
                write_entry env.py env.server
                  (request uploads)
                  (λ code g. emit g (failed_line code))
                  (λ entry g. emit g (written_line entry))
            from (returned (final uploads entry)))
            w)
  planned-IsEnd Fits g s w ls plan request failed_line written_line final p q hf hw fits =
      granted-IsEnd now env.urls caller Fits g s w ls plan.total_bytes _ p q (λ g' kept.
        IsSettled-from now Fits ls g' _ (record w { gate = g' })
          (read_uploads env.fs env.disk plan.specs g'.config.olog_attach_max_bytes) _ refl refl
          (λ uploads e. IsSettled-after now Fits ls g' _ _ _ (
            write_entry-IsSettled now Fits ls env.py env.server (record w { gate = g' })
              (request uploads) failed_line written_line hf hw
              (λ q' made. fits uploads q' (cap_of g' kept e) made))))
    where
      cap_of :
          (g' : OlogWriteGate) {o : List AttachmentUpload}
          → g'.config ≡ w.gate.config
          → read_uploads env.fs env.disk plan.specs g'.config.olog_attach_max_bytes ≡ returned o
          → read_uploads env.fs env.disk plan.specs g.config.olog_attach_max_bytes ≡ returned o
      cap_of g' kept e =
          ap (λ (x : Config). read_uploads env.fs env.disk plan.specs x.olog_attach_max_bytes)
            (sym (kept ∙ ap (λ (x : OlogWriteGate). x.config) p))
          ∙ e

  -- What the files that are to be attached give, within the bound: the uploads, in their order, and the
  -- markup of the one that is embedded.
  abbrev pub AreRead : (cap : ℕ) → List Text → Option Text → List AttachmentUpload → Text → Type 0
  AreRead cap attachments embed uploads markup =
      (plan : AttachmentPlan env.fs) × (plan_attachments env.fs env.disk env.ids env.roots_text 0
          attachments embed
        ≡ returned plan)
      × (read_uploads env.fs env.disk plan.specs cap ≡ returned uploads)
      × (plan.inline_markup ≡ markup)

  plan_made :
      {A : Type 0} (o : Attempt A) (w w' : World) (plan : A)
      → from o w ≡ (returned plan, w')
      → o ≡ returned plan
  plan_made {A} o w w' plan e = ap (λ (x : Attempt A × World). x.0) e

  -- The request of a create names the logbooks that the gate granted, and is made of the arguments and
  -- of the files that were read.
  abbrev pub Creates :
      (cap : ℕ)
      → Text
      → List Text
      → Option Text
      → Option Text
      → Option (List Text)
      → Option Text
      → List Text
      → Option Text
      → List Text
      → Request
      → Type 0
  Creates cap title logbooks description level tags in_reply_to attachments embed ls q =
      (ls ≡ logbooks)
      × (request_logbooks q ≡ some logbooks)
      × ((uploads : List AttachmentUpload) × (markup : Text) × AreRead cap attachments embed uploads
            markup
          × (q
              ≡ create_request title logbooks (described description markup) level tags in_reply_to
                  uploads))

  pub create_run-IsEnd :
      (title : Text) (logbooks : List Text) (description level : Option Text)
      (tags : Option (List Text)) (in_reply_to : Option Text) (attachments : List Text)
      (embed : Option Text) (w : World)
      → IsEnd now env.urls caller
          (Creates w.gate.config.olog_attach_max_bytes title logbooks description level tags
            in_reply_to attachments embed)
          w.gate
          w.sent
          (create_run env now caller title logbooks description level tags in_reply_to attachments
            embed w)
  unfolding create_run audit_write audit_write_failed
  create_run-IsEnd title logbooks description level tags in_reply_to attachments embed w =
      let Fits =
        Creates w.gate.config.olog_attach_max_bytes title logbooks description level tags
          in_reply_to attachments embed in
      let g = w.gate in
      let s = w.sent in
      quiet-IsEnd now env.urls caller Fits g s _ _
        (logbooks-IsQuiet now env.urls caller logbooks g s w refl refl)
        (λ t w1 e1 q q'.
          quiet-IsEnd now env.urls caller Fits g s (reject_unknown_level env level w1) _
            (level-IsQuiet now env g s level w1 q q')
            (λ t2 w2 e2 r r'.
              quiet-IsEnd now env.urls caller Fits g s
                (from (plan_attachments env.fs env.disk env.ids env.roots_text 0 attachments embed)
                  w2)
                _ (from_IsQuiet now g s _ w2 r r')
                (λ plan w3 e3 z z'.
                  planned-IsEnd Fits g s w3 logbooks plan _ _ _ _ z z' (λ code. (refl, refl))
                    (λ entry. refl)
                    (λ uploads q read e. (
                      refl,
                      sent_logbooks title logbooks (described description plan.inline_markup) level
                          tags in_reply_to uploads q e,
                      (
                        uploads,
                        plan.inline_markup,
                        (plan, plan_made _ w2 w3 plan e3, read, refl),
                        sym (returned_inj e),
                      ),
                    )))))

  -- The request of an addition submits the entry that was read, with files added, and the gate granted
  -- the logbooks of that entry.
  abbrev pub Adds : (cap : ℕ) → List Text → Option Text → Text → List Text → Request → Type 0
  Adds cap attachments embed log_id ls q =
      (raw : Fields) × (uploads : List AttachmentUpload) × (markup : Text) × (j : LogJson)
      × (raw_entry_of (env.server.read (log_entry log_id)) ≡ returned (some raw))
      × AreRead cap attachments embed uploads markup
      × (ls ≡ names env.py (get (codes "logbooks") raw))
      × (q ≡ post_multipart j (file_parts uploads))
      × IsAdditive env.py raw j uploads markup

  pub add_run-IsEnd :
      (log_id : Text) (attachments : List Text) (embed : Option Text) (w : World)
      → IsEnd now env.urls caller
          (Adds w.gate.config.olog_attach_max_bytes attachments embed log_id)
          w.gate
          w.sent
          (add_run env now caller log_id attachments embed w)
  unfolding add_run audit_write audit_write_failed
  add_run-IsEnd log_id attachments embed w =
      let Fits = Adds w.gate.config.olog_attach_max_bytes attachments embed log_id in
      let g = w.gate in
      let s = w.sent in
      quiet-IsEnd now env.urls caller Fits g s _ _
        (early-IsQuiet now env.urls caller g s w refl refl)
        (λ t w1 e1 q q'.
          quiet-IsEnd now env.urls caller Fits g s (read_entry env log_id w1) _
            (read_entry-IsQuiet now env g s log_id w1 q q')
            (λ raw w2 e2 r r'.
              let ls = names env.py (get (codes "logbooks") raw) in
              quiet-IsEnd now env.urls caller Fits g s _ _
                (logbooks-IsQuiet now env.urls caller ls g s w2 r r')
                (λ t3 w3 e3 y y'.
                  quiet-IsEnd now env.urls caller Fits g s
                    (from
                      (plan_attachments env.fs env.disk env.ids env.roots_text 0 attachments embed)
                      w3)
                    _ (from_IsQuiet now g s _ w3 y y')
                    (λ plan w4 e4 z z'.
                      planned-IsEnd Fits g s w4 ls plan _ _ _ _ z z' (λ code. (refl, refl))
                        (λ entry. refl)
                        (λ uploads q read e.
                          let (j, made, additive) =
                            add_request-IsAdditive env.py raw env.int_of log_id uploads
                              plan.inline_markup q e in
                          (
                            raw,
                            uploads,
                            plan.inline_markup,
                            j,
                            read_entry_found env log_id w1 w2 raw e2,
                            (plan, plan_made _ w3 w4 plan e4, read, refl),
                            refl,
                            made,
                            additive,
                          ))))))
