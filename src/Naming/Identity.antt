-- ===== src/Naming/Identity.antt =====
-- What the probe of the identity takes for the Naming Service.
use epics_mcp_server.Prelude.{
  ℕ, ◌≡◌, refl, sym, ap, ◌∙◌, ◌≢◌, inl, inr, false, Option, none, some, if◌then◌else◌, Bool-cases,
}
use epics_mcp_server.Prelude.Texts.{Text, codes, text_eq, text_eq_iff}
use epics_mcp_server.Errors.{Result, ok, err}
use epics_mcp_server.Throttle.{ReadThrottle}
use epics_mcp_server.Json.{Json, text, object, Fields, get, as_text_iff, as_object_iff}
use epics_mcp_server.Transport.{
  ErrorClass, connection_error, ssl_error, retry_error, invalid_error, request_error, Response,
  Answer, responded, failed, Outcome, returned, conn_exc, resp_exc, throttled, value_error,
  is_error_status, throttled_first, parsed, json_of, rest_get_json,
}
use epics_mcp_server.Transport.Steps.{returned_iff, bind_iff}
use epics_mcp_server.Transport.Capped.{translated-ne-returned, refuse_if_iff, raise_for_status_iff}
use epics_mcp_server.Naming.{
  verified, naming_swagger_title, get_in, fields_of, text_of, title_of, title_verdict,
  cause_verdict, verdict_of, probe_naming_identity, unverified,
}

-- The host itself answered the probe, with a contract of the title.
abbrev pub Proves : Answer → Type 0
Proves a =
    (r : Response) × (payload info : Fields) × (a ≡ responded r)
    × (r.is_redirect ≡ false)
    × (is_error_status r.status_code ≡ false)
    × (r.json ≡ some (object payload))
    × (get (codes "info") payload ≡ object info)
    × (get (codes "title") info ≡ text naming_swagger_title)

cause-ne : (k : ErrorClass) → cause_verdict k ≢ verified
cause-ne connection_error h = cc
cause-ne ssl_error h = cc
cause-ne retry_error h = cc
cause-ne invalid_error h = cc
cause-ne request_error h = cc

verdict_of_verified :
    (o : Outcome Json)
    → verdict_of o ≡ verified
    → (j : Json) × (o ≡ returned j) × (title_verdict (title_of j) ≡ verified)
verdict_of_verified (returned j) h = (j, refl, h)
verdict_of_verified (conn_exc e) h = absurd (cause-ne e.class h)
verdict_of_verified (resp_exc none) h = cc
verdict_of_verified (resp_exc (some e)) h = absurd (cause-ne e.class h)
verdict_of_verified throttled h = cc
verdict_of_verified value_error h = cc

admitted_returned :
    (x : Result (Unit {0})) (o : Outcome Json) (j : Json)
    → throttled_first x o ≡ returned j
    → o ≡ returned j
admitted_returned (ok u) o j h = h
admitted_returned (err e) o j h = cc

title_verdict_verified :
    (t : Option Text) → title_verdict t ≡ verified → t ≡ some naming_swagger_title
title_verdict_verified none h = cc
title_verdict_verified (some t) h = elim (Bool-cases (text_eq t naming_swagger_title)) [
  | inl e ↦ ap some ((text_eq_iff t naming_swagger_title).0 e)
  | inr e ↦ cc (ap (λ b. if b then verified else unverified) (sym e) ∙ h)
]

pub fields_of-some : (o : Option Json) (fs : Fields) → fields_of o ≡ some fs → o ≡ some (object fs)
fields_of-some none fs h = cc
fields_of-some (some j) fs h = ap some ((as_object_iff j fs).0 h)

text_of-some : (o : Option Json) (t : Text) → text_of o ≡ some t → o ≡ some (text t)
text_of-some none t h = cc
text_of-some (some j) t h = ap some ((as_text_iff j t).0 h)

get_in-some :
    (key : Text) (o : Option Fields) (v : Json)
    → get_in key o ≡ some v
    → (fs : Fields) × (o ≡ some fs) × (get key fs ≡ v)
get_in-some key none v h = cc
get_in-some key (some fs) v h = (fs, refl, cc)

title_of_json :
    (j : Json)
    → title_of j ≡ some naming_swagger_title
    → (payload info : Fields) × (j ≡ object payload)
      × (get (codes "info") payload ≡ object info)
      × (get (codes "title") info ≡ text naming_swagger_title)
title_of_json j h =
    let (info, e, f) = get_in-some _ _ _ (text_of-some _ _ h) in
    let (payload, g, k) = get_in-some _ _ _ (fields_of-some _ _ e) in
    (payload, info, (as_object_iff j payload).0 g, k, f)

parsed_returned : (o : Option Json) (j : Json) → parsed o ≡ returned j → o ≡ some j
parsed_returned none j h = cc
parsed_returned (some k) j h = ap some (returned_iff.0 h)

json_of_returned :
    (a : Answer) (j : Json)
    → json_of false a ≡ returned j
    → (r : Response) × (a ≡ responded r)
      × (r.is_redirect ≡ false)
      × (is_error_status r.status_code ≡ false)
      × (r.json ≡ some j)
unfolding json_of
json_of_returned (failed e) j h = absurd (translated-ne-returned e j h)
json_of_returned (responded r) j h =
    let (u, e, h2) = (bind_iff _ _ _).0 h in
    let (v, f, k) = (bind_iff _ _ _).0 h2 in
    (
      r,
      refl,
      (refuse_if_iff r.is_redirect).0 e,
      (raise_for_status_iff r).0 f,
      parsed_returned r.json j k,
    )

pub probe_naming_identity_verified :
    (t : ReadThrottle) (now : ℕ) (swagger : Answer)
    → (probe_naming_identity t now swagger).0 ≡ verified
    → Proves swagger
unfolding probe_naming_identity rest_get_json
probe_naming_identity_verified t now swagger h =
    let (j, e, v) = verdict_of_verified _ h in
    let (r, f, g, k, l) = json_of_returned swagger j (admitted_returned _ _ j e) in
    let (payload, info, m, n, o) = title_of_json j (title_verdict_verified (title_of j) v) in
    (r, payload, info, f, g, k, l ∙ ap some m, n, o)
