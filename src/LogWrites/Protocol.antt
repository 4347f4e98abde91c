-- ===== src/LogWrites/Protocol.antt =====
-- What any of the three operations may have done by its end, and the steps it is made of.
use mathlib.Core.Path.{subst}
use epics_mcp_server.Prelude.{ℕ, String, ◌≡◌, refl, ap, ◌⊎◌, inl, inr, List, [], ◌∷◌, ◌++◌}
use epics_mcp_server.Prelude.Texts.{Text}
use epics_mcp_server.Errors.{EpicsError, error_code, ok, err}
use epics_mcp_server.Window.{purge_old}
use epics_mcp_server.Urls.{UrlLib}
use epics_mcp_server.Faults.{Fault, FaultCode, fault_code, Attempt, raised, returned}
use epics_mcp_server.Olog.{
  OlogWriteGate, AuditLine, deny, allow, failed, Checked, check_write_allowed,
}
use epics_mcp_server.Olog.Gate.{IsRefused, olog_write-IsRefused}
use epics_mcp_server.Olog.Granted.{granted_leaves}
use epics_mcp_server.LogClient.{Request}
use epics_mcp_server.LogWrites.{World, Action, and_then, check, checked}

-- A line that says that a write to these logbooks was made, or that it failed with this code.
abbrev pub IsAllow : List Text → AuditLine → Type 0
IsAllow ls (allow logbooks level title_len entry_id owner in_reply_to attachments caller) =
    logbooks ≡ ls
IsAllow ls _ = ⊥

abbrev pub IsFailed : List Text → FaultCode → AuditLine → Type 0
IsFailed ls code (failed logbooks level title_len code' entry_id in_reply_to caller) =
    (logbooks ≡ ls) × (code' ≡ code)
IsFailed ls code _ = ⊥

module _ (now : ℕ) where
  -- Nothing was sent and no token was taken, and at most a refusal was audited.
  pub record IsUnsent (g : OlogWriteGate) (s : List Request) (w : World) : Type 0 where
    pub same_sent : w.sent ≡ s
    pub line :
        (w.gate.audit ≡ g.audit)
        ⊎ ((code : String) × (caller : String) × (w.gate.audit ≡ g.audit ++ deny code caller ∷ []))
    pub tokens :
        (w.gate.timestamps ≡ g.timestamps) ⊎ (w.gate.timestamps ≡ purge_old now g.timestamps)

  -- A step that leaves the gate alone, or ends the operation with nothing sent.
  abbrev pub IsQuiet {ℓ} : {A : Type ℓ} → OlogWriteGate → List Request → Attempt A × World → Type 0
  IsQuiet g s (raised f, w) = IsUnsent g s w
  IsQuiet g s (returned a, w) = (w.gate ≡ g) × (w.sent ≡ s)

  -- What follows a granted check, from the gate that it leaves, and ends well: one request and the
  -- line that says so.
  abbrev pub IsSuccess :
      (List Text → Request → Type 0) → List Text → OlogWriteGate → List Request → World → Type 0
  IsSuccess Fits ls g s w =
      (w.gate.timestamps ≡ g.timestamps)
      × ((q : Request) × (w.sent ≡ s ++ q ∷ []) × Fits ls q)
      × ((line : AuditLine) × (w.gate.audit ≡ g.audit ++ line ∷ []) × IsAllow ls line)

  -- And what ends with a fault: nothing, or a request that was tried and the line that says that it
  -- failed, with the fault's code.
  abbrev pub IsFailure :
      (List Text → Request → Type 0)
      → List Text
      → OlogWriteGate
      → List Request
      → Fault
      → World
      → Type 0
  IsFailure Fits ls g s f w =
      (w.gate.timestamps ≡ g.timestamps)
      × (((w.sent ≡ s) × (w.gate.audit ≡ g.audit))
          ⊎ (((w.sent ≡ s) ⊎ ((q : Request) × (w.sent ≡ s ++ q ∷ []) × Fits ls q))
              × ((line : AuditLine) × (w.gate.audit ≡ g.audit ++ line ∷ [])
                  × IsFailed ls (fault_code f) line)))

  abbrev pub IsSettled {ℓ} :
      {A : Type ℓ}
      → (List Text → Request → Type 0)
      → List Text
      → OlogWriteGate
      → List Request
      → Attempt A × World
      → Type 0
  IsSettled Fits ls g s (returned a, w) = IsSuccess Fits ls g s w
  IsSettled Fits ls g s (raised f, w) = IsFailure Fits ls g s f w

  pub IsQuiet-IsQuiet {a b} :
      {A : Type a} {B : Type b} (g : OlogWriteGate) (s : List Request) (first : Attempt A × World)
      (rest : A → Action B)
      → IsQuiet g s first
      → ((value : A) (w : World)
          → first ≡ (returned value, w)
          → w.gate ≡ g
          → w.sent ≡ s
          → IsQuiet g s (rest value w))
      → IsQuiet g s (and_then first rest)
  IsQuiet-IsQuiet g s (raised f, w) rest q k = q
  IsQuiet-IsQuiet g s (returned value, w) rest (q, q') k = k value w refl q q'

  module _ (u : UrlLib) (caller : String) where
    -- The gate granted a write to these logbooks and took one token.
    abbrev pub IsGranted : OlogWriteGate → List Text → ℕ → OlogWriteGate → Type 0
    IsGranted g ls bytes g' =
        (check_write_allowed u g ls caller bytes now ≡ (ok tt, g'))
        × (g'.audit ≡ g.audit)
        × (g'.timestamps ≡ purge_old now g.timestamps ++ now ∷ [])

    -- The end of an operation: it did nothing, or the gate granted it and its request was settled.
    abbrev pub IsEnd {ℓ} :
        {A : Type ℓ}
        → (List Text → Request → Type 0)
        → OlogWriteGate
        → List Request
        → Attempt A × World
        → Type 0
    IsEnd Fits g s (returned a, w) =
        (ls : List Text) × (bytes : ℕ) × (g' : OlogWriteGate) × IsGranted g ls bytes g'
        × IsSuccess Fits ls g' s w
    IsEnd Fits g s (raised f, w) =
        IsUnsent g s w
        ⊎ ((ls : List Text) × (bytes : ℕ) × (g' : OlogWriteGate) × IsGranted g ls bytes g'
            × IsFailure Fits ls g' s f w)

    pub quiet-IsEnd {a b} :
        {A : Type a} {B : Type b} (Fits : List Text → Request → Type 0) (g : OlogWriteGate)
        (s : List Request) (first : Attempt A × World) (rest : A → Action B)
        → IsQuiet g s first
        → ((value : A) (w : World)
            → first ≡ (returned value, w)
            → w.gate ≡ g
            → w.sent ≡ s
            → IsEnd Fits g s (rest value w))
        → IsEnd Fits g s (and_then first rest)
    quiet-IsEnd Fits g s (raised f, w) rest q k = inl q
    quiet-IsEnd Fits g s (returned value, w) rest (q, q') k = k value w refl q q'

    pub refused-IsUnsent :
        (w : World) (d : EpicsError) (g' : OlogWriteGate)
        → IsRefused w.gate g' caller now d
        → IsUnsent w.gate w.sent (record w { gate = g' })
    refused-IsUnsent w d g' refused = record {
      same_sent = refl;
      line = elim refused.line [
        | inl a ↦ inr (error_code d, caller, a)
        | inr (a, too_large) ↦ inr ("OLOG_ATTACH_TOO_LARGE", caller, a)
      ];
      tokens = refused.tokens;
    }

    settled-IsEnd {b} :
        {B : Type b} (Fits : List Text → Request → Type 0) (g g' : OlogWriteGate) (s : List Request)
        (ls : List Text) (bytes : ℕ)
        → check_write_allowed u g ls caller bytes now ≡ (ok tt, g')
        → (end : Attempt B × World) → IsSettled Fits ls g' s end
        → IsEnd Fits g s end
    settled-IsEnd Fits g g' s ls bytes granted (raised f, w) settled =
        let (a, c, t) = granted_leaves u caller now g g' ls bytes granted in
        inr (ls, bytes, g', (granted, a, t), settled)
    settled-IsEnd Fits g g' s ls bytes granted (returned value, w) settled =
        let (a, c, t) = granted_leaves u caller now g g' ls bytes granted in
        (ls, bytes, g', (granted, a, t), settled)

    pub granted-IsEnd {b} :
        {B : Type b} (Fits : List Text → Request → Type 0) (g : OlogWriteGate) (s : List Request)
        (w : World) (ls : List Text) (bytes : ℕ) (rest : Action B)
        → w.gate ≡ g
        → w.sent ≡ s
        → ((g' : OlogWriteGate)
            → g'.config ≡ w.gate.config
            → IsSettled Fits ls g' w.sent (rest (record w { gate = g' })))
        → IsEnd Fits g s
            (and_then (check (λ g. check_write_allowed u g ls caller bytes now) w) (λ t. rest))
    granted-IsEnd Fits g s w ls bytes rest q q' settled =
        let checking =
          and_then (check (λ g. check_write_allowed u g ls caller bytes now) w) (λ t. rest) in
        subst (λ x. IsEnd Fits x s checking) q
          (subst (λ x. IsEnd Fits w.gate x checking) q'
            (by_check (check_write_allowed u w.gate ls caller bytes now) refl))
      where
        by_check :
            (c : Checked)
            → check_write_allowed u w.gate ls caller bytes now ≡ c
            → IsEnd Fits w.gate w.sent (and_then (checked w c) (λ t. rest))
        by_check (ok t, g') e =
            settled-IsEnd Fits w.gate g' w.sent ls bytes e (rest (record w { gate = g' }))
              (settled g' (granted_leaves u caller now w.gate g' ls bytes e).1)
        by_check (err d, g') e =
            let refused =
              subst (λ x. IsRefused w.gate x caller now d) (ap (λ (c : Checked). c.1) e)
                (olog_write-IsRefused u w.gate caller now d ls bytes
                  (ap (λ (c : Checked). c.0) e)) in
            inl (refused-IsUnsent w d g' refused)
