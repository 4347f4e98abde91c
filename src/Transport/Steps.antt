-- ===== src/Transport/Steps.antt =====
-- Inversion of the steps of a call that returned.
use epics_mcp_server.Prelude.{◌≡◌, refl, ap, ◌∙◌, ◌↔◌}
use epics_mcp_server.Transport.{
  Outcome, returned, conn_exc, resp_exc, throttled, value_error, ◌>>=◌,
}

pub returned_iff : {A : Type 0} {a b : A} → (returned a ≡ returned b) ↔ (a ≡ b)
returned_iff = (λ h. cc, λ h. cc)

pub bind_iff :
    {A B : Type 0} (first : Outcome A) (rest : A → Outcome B) (b : B)
    → ((first >>= rest) ≡ returned b) ↔ ((a : A) × (first ≡ returned a) × (rest a ≡ returned b))
bind_iff (returned a) rest b =
    (λ k. (a, refl, k), λ k. let (c, e, f) = k in ap rest (returned_iff.0 e) ∙ f)
bind_iff (conn_exc e) rest b = (λ k. cc, λ k. let (c, e, f) = k in cc)
bind_iff (resp_exc e) rest b = (λ k. cc, λ k. let (c, e, f) = k in cc)
bind_iff throttled rest b = (λ k. cc, λ k. let (c, e, f) = k in cc)
bind_iff value_error rest b = (λ k. cc, λ k. let (c, e, f) = k in cc)
