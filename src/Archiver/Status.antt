-- ===== src/Archiver/Status.antt =====
-- When the client says that there is no archiving.
use epics_mcp_server.Prelude.{
  ℕ, ◌≡◌, refl, ap, ◌∙◌, ◌≢◌, ◌↔◌, inl, inr, true, false, Option, none, some, arith, Bool-cases,
}
use epics_mcp_server.Prelude.Texts.{Text}
use epics_mcp_server.Json.{Json, Fields}
use epics_mcp_server.Transport.{
  ErrorClass, RequestException, Outcome, returned, conn_exc, resp_exc, throttled, value_error,
  ◌>>=◌, is_http_404,
}
use epics_mcp_server.Archiver.{
  Request, type_info, not_found, found, require_type_info_record, type_info_of, get_pv_type_info,
}

-- The response error of a 404
abbrev pub IsMissing : Outcome Json → Type 0
IsMissing o = (e : RequestException) × (o ≡ resp_exc (some e)) × (e.response ≡ some 404)

found-ne :
    (o : Outcome Fields) (f : Fields → Fields)
    → (o >>= λ r. returned (found (f r))) ≢ returned not_found
found-ne (returned r) f = λ h. cc
found-ne (conn_exc e) f = λ h. cc
found-ne (resp_exc e) f = λ h. cc
found-ne throttled f = λ h. cc
found-ne value_error f = λ h. cc

missing_iff :
    (k : ErrorClass) (r : Option ℕ)
    → (is_http_404 {A = Json} (resp_exc (some (record { class = k; response = r }))) ≡ true)
      ↔ (r ≡ some 404)
unfolding is_http_404
missing_iff k none = (λ h. cc, λ h. cc)
missing_iff k (some s) = ground arith

no_cause : is_http_404 {A = Json} (resp_exc none) ≡ false
unfolding is_http_404
no_cause = refl

cause_inj :
    {d e : RequestException}
    → ◌≡◌ {A = Outcome Json} (resp_exc (some e)) (resp_exc (some d))
    → e ≡ d
cause_inj h = cc

type_info_of_iff : (o : Outcome Json) → (type_info_of o ≡ returned not_found) ↔ IsMissing o
type_info_of_iff (returned payload) =
    (λ h. absurd (found-ne (require_type_info_record payload) _ h), λ h. let (e, f, g) = h in cc)
type_info_of_iff (resp_exc none) = rw no_cause (λ h. cc, λ h. let (e, f, g) = h in cc)
type_info_of_iff (resp_exc (some e)) =
    let m = missing_iff e.class e.response in
    elim (Bool-cases (is_http_404 {A = Json} (resp_exc (some e)))) [
      | inl t ↦ rw t (λ h. (e, refl, m.0 t), λ h. refl)
      | inr t ↦ rw t (
        λ h. cc,
        λ h.
            let (d, f, g) = h in
            cc (t, m.1 (ap (λ (x : RequestException). x.response) (cause_inj f) ∙ g)),
      )
    ]
type_info_of_iff (conn_exc e) = (λ h. cc, λ h. let (d, f, g) = h in cc)
type_info_of_iff throttled = (λ h. cc, λ h. let (e, f, g) = h in cc)
type_info_of_iff value_error = (λ h. cc, λ h. let (e, f, g) = h in cc)

-- A PV has no archive configuration exactly if the appliance answered with 404: no other failure, and
-- no payload, is taken for it.
pub get_pv_type_info_not_found_iff :
    (fetch : Request → Outcome Json) (pv : Text)
    → (get_pv_type_info fetch pv ≡ returned not_found) ↔ IsMissing (fetch (type_info pv))
unfolding get_pv_type_info
get_pv_type_info_not_found_iff fetch pv = type_info_of_iff (fetch (type_info pv))
