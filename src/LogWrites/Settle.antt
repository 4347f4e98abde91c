-- ===== src/LogWrites/Settle.antt =====
-- What follows the granted check of an operation: its uploads are read, its request is sent, and its
-- end is audited.
use epics_mcp_server.Prelude.{ℕ, ◌≡◌, refl, ap, inl, inr, List, [], ◌∷◌, ◌++◌}
use epics_mcp_server.Prelude.Texts.{Text}
use epics_mcp_server.Faults.{FaultCode, fault_code, Attempt, raised, returned}
use epics_mcp_server.Olog.{OlogWriteGate, AuditLine, emit}
use epics_mcp_server.Json.{Fields, Json}
use epics_mcp_server.Entry.{Strings}
use epics_mcp_server.LogClient.{Server, Request, confirmed}
use epics_mcp_server.LogWrites.{World, Action, and_then, from, settle, write_entry}
use epics_mcp_server.LogWrites.Protocol.{IsSettled, IsAllow, IsFailed}

module _ (now : ℕ) (Fits : List Text → Request → Type 0) (ls : List Text) where
  pub IsSettled-from {a b} :
      {A : Type a} {B : Type b} (g : OlogWriteGate) (s : List Request) (w : World)
      (outcome : Attempt A) (rest : A → Action B)
      → w.gate ≡ g
      → w.sent ≡ s
      → ((value : A) → outcome ≡ returned value → IsSettled now Fits ls g s (rest value w))
      → IsSettled now Fits ls g s (and_then (outcome, w) rest)
  IsSettled-from g s w (raised f) rest q q' k =
      (ap (λ (x : OlogWriteGate). x.timestamps) q, inl (q', ap (λ (x : OlogWriteGate). x.audit) q))
  IsSettled-from g s w (returned value) rest q q' k = k value refl

  pub IsSettled-after {a b} :
      {A : Type a} {B : Type b} (g : OlogWriteGate) (s : List Request) (first : Attempt A × World)
      (final : A → B)
      → IsSettled now Fits ls g s first
      → IsSettled now Fits ls g s (and_then first (λ value w. (returned (final value), w)))
  IsSettled-after g s (raised f, w) final k = k
  IsSettled-after g s (returned value, w) final k = k

  pub write_entry-IsSettled :
      (py : Strings) (server : Server) (w : World) (request : Attempt Request)
      (failed_line : FaultCode → AuditLine) (written_line : Fields → AuditLine)
      → ((code : FaultCode) → IsFailed ls code (failed_line code))
      → ((entry : Fields) → IsAllow ls (written_line entry))
      → ((q : Request) → request ≡ returned q → Fits ls q)
      → IsSettled now Fits ls w.gate w.sent (
          write_entry py server request
            (λ code g. emit g (failed_line code))
            (λ entry g. emit g (written_line entry))
            w)
  unfolding write_entry emit
  write_entry-IsSettled py server w (raised f) failed_line written_line hf hw fits =
      (refl, inr (inl refl, (failed_line (fault_code f), refl, hf (fault_code f))))
  write_entry-IsSettled py server w (returned q) failed_line written_line hf hw fits =
      by_answer (server.write q)
    where
      by_entry :
          (a : Attempt Fields)
          → IsSettled now Fits ls w.gate w.sent (
              settle
                (λ code g. emit g (failed_line code))
                (λ entry g. emit g (written_line entry))
                (a, record w { sent = w.sent ++ q ∷ [] }))
      by_entry (raised f) = (
        refl,
        inr (inr (q, refl, fits q refl), (failed_line (fault_code f), refl, hf (fault_code f))),
      )
      by_entry (returned entry) =
          (refl, (q, refl, fits q refl), (written_line entry, refl, hw entry))

      by_answer :
          (a : Attempt Json)
          → IsSettled now Fits ls w.gate w.sent (
              settle
                (λ code g. emit g (failed_line code))
                (λ entry g. emit g (written_line entry))
                (and_then
                  (a, record w { sent = w.sent ++ q ∷ [] })
                  (λ payload. from (confirmed py (returned payload)))))
      by_answer (raised f) = (
        refl,
        inr (inr (q, refl, fits q refl), (failed_line (fault_code f), refl, hf (fault_code f))),
      )
      by_answer (returned payload) = by_entry (confirmed py (returned payload))
