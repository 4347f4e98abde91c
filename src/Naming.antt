-- ===== src/Naming.antt =====
-- services/naming_client.py and services/naming_identity.py: the names that the Naming Service knows. A
-- call is given the answers of the service to its requests; `throttle` is the shared read throttle. The
-- error of a body that is no JSON is a RequestException, as in requests from 2.27 on.
pub mod Identity
pub mod Backed
pub mod Verdict
use epics_mcp_server.Prelude.{
  ℕ, Bool, false, Option, none, some, List, [], ◌∷◌, ◌==◌, if◌then◌else◌,
}
use epics_mcp_server.Prelude.Texts.{Text, codes, text_eq, is_empty}
use epics_mcp_server.Errors.{Result, ok, err}
use epics_mcp_server.Throttle.{ReadThrottle, check}
use epics_mcp_server.Json.{Json, object, Fields, get, as_text, as_object}
use epics_mcp_server.Transport.{
  ErrorClass, invalid_error, RequestException, Response, Answer, responded, failed, Outcome,
  returned, conn_exc, resp_exc, throttled, value_error, is_error_status, rest_get_json,
}

-- `IdentityVerdict`
pub data IdentityVerdict : Type 0 where
  verified unverified probe_failed : IdentityVerdict

abbrev pub naming_swagger_title : Text
naming_swagger_title = codes "Naming service API documentation"

-- `d.get(key)` where the value is a dict
abbrev pub get_in : Text → Option Fields → Option Json
get_in key none = none
get_in key (some fs) = some (get key fs)

abbrev pub fields_of : Option Json → Option Fields
fields_of none = none
fields_of (some j) = as_object j

abbrev pub text_of : Option Json → Option Text
text_of none = none
text_of (some j) = as_text j

abbrev pub title_of : Json → Option Text
title_of payload =
    text_of (get_in (codes "title") (fields_of (get_in (codes "info") (as_object payload))))

abbrev pub title_verdict : Option Text → IdentityVerdict
title_verdict none = unverified
title_verdict (some title) = if text_eq title naming_swagger_title then verified else unverified

-- A failure that is, or was caused by, a ValueError reached the body.
abbrev pub cause_verdict : ErrorClass → IdentityVerdict
cause_verdict invalid_error = unverified
cause_verdict _ = probe_failed

abbrev pub verdict_of : Outcome Json → IdentityVerdict
verdict_of (returned payload) = title_verdict (title_of payload)
verdict_of (conn_exc e) = cause_verdict e.class
verdict_of (resp_exc none) = probe_failed
verdict_of (resp_exc (some e)) = cause_verdict e.class
verdict_of throttled = probe_failed
verdict_of value_error = unverified

unfoldable pub probe_naming_identity : ReadThrottle → ℕ → Answer → IdentityVerdict × ReadThrottle
unfolding rest_get_json get text_eq
probe_naming_identity t now swagger =
    let probed = rest_get_json t now false swagger in (verdict_of probed.0, probed.1)

pub record NamingClient : Type 0 where
  pub names_cache : List (Text × Fields)
  pub identity : Option IdentityVerdict
  pub throttle : ReadThrottle

-- A new client, with the throttle as it is
abbrev pub new_client : ReadThrottle → NamingClient
new_client t = record { names_cache = []; identity = none; throttle = t }

-- A call of `validate_name`: the name, the clock, and the answers that the service gives to the lookup
-- and to the probe, which may not be made.
pub record Call : Type 0 where
  pub name : Text
  pub now : ℕ
  pub answer : Answer
  pub probe_now : ℕ
  pub swagger : Answer

-- What a method does: it returns, or raises NamingServiceNotFound, NamingServiceResponseError or the
-- error of the throttle.
pub data Naming (A : Type 0) : Type 0 where
  found : A → Naming A
  not_found response_error limited : Naming A

unfoldable pub cached : Text → List (Text × Fields) → Option Fields
unfolding text_eq
cached name [] = none
cached name (entry ∷ entries) =
    let rest = cached name entries in if text_eq entry.0 name then some entry.1 else rest

abbrev pub identity_after : Option IdentityVerdict → Call → NamingClient → NamingClient
identity_after (some v) c s = s
identity_after none c s =
    let probed = probe_naming_identity s.throttle c.probe_now c.swagger in
    record s { identity = some probed.0; throttle = probed.1 }

abbrev pub denied_by : Option IdentityVerdict → Naming Fields
denied_by (some verified) = not_found
denied_by _ = response_error

-- `_require_verified_identity`, and the NamingServiceNotFound behind it
unfoldable pub not_found_if_verified : Call → NamingClient → Naming Fields × NamingClient
unfolding probe_naming_identity
not_found_if_verified c s =
    let probed = identity_after s.identity c s in (denied_by probed.identity, probed)

-- A payload
abbrev pub keep_record : Call → Option Fields → NamingClient → Naming Fields × NamingClient
keep_record c none s = (response_error, s)
keep_record c (some fields) s =
    (found fields, record s { names_cache = (c.name, fields) ∷ s.names_cache })

abbrev pub of_answer : Call → Answer → NamingClient → Naming Fields × NamingClient
of_answer c (failed e) s = (response_error, s)
of_answer c (responded r) s =
    if is_error_status r.status_code
    then (if r.status_code == 404 then not_found_if_verified c s else (response_error, s))
    else if r.status_code == 204
    then not_found_if_verified c s
    else keep_record c (fields_of r.json) s

abbrev pub admitted : Call → Result (Unit {0}) → NamingClient → Naming Fields × NamingClient
admitted c (err e) s = (limited, s)
admitted c (ok u) s = of_answer c c.answer s

abbrev pub ask : Call → NamingClient → Naming Fields × NamingClient
ask c s =
    let checked = check s.throttle c.now in admitted c checked.0 (record s { throttle = checked.1 })

abbrev pub or_ask : Option Fields → Call → NamingClient → Naming Fields × NamingClient
or_ask (some fields) c s = (found fields, s)
or_ask none c s = ask c s

-- `_get_device_name`
unfoldable pub get_device_name : Call → NamingClient → Naming Fields × NamingClient
unfolding cached check not_found_if_verified
get_device_name c s = or_ask (cached c.name s.names_cache) c s

pub data Message : Type 0 where
  is_not_registered is_active is_obsolete is_deleted : Message
  has_unknown_status : Text → Message

pub record NameStatus : Type 0 where
  pub registered : Bool
  pub status : Text
  pub message : Message

abbrev message_for : Text → Message
message_for status =
    if text_eq status (codes "ACTIVE")
    then is_active
    else if text_eq status (codes "OBSOLETE")
    then is_obsolete
    else if text_eq status (codes "DELETED")
    then is_deleted
    else has_unknown_status status

abbrev pub status_of : Option Text → Naming NameStatus
status_of none = response_error
status_of (some status) =
    if is_empty status
    then response_error
    else found (record {
      registered = text_eq status (codes "ACTIVE");
      status = status;
      message = message_for status;
    })

abbrev pub not_registered : NameStatus
not_registered = record { registered = false; status = []; message = is_not_registered }

abbrev pub validated : Naming Fields → Naming NameStatus
validated (found fields) = status_of (as_text (get (codes "status") fields))
validated not_found = found not_registered
validated response_error = response_error
validated limited = limited

unfoldable pub validate_name : Call → NamingClient → Naming NameStatus × NamingClient
unfolding get_device_name get text_eq
validate_name c s = let looked = get_device_name c s in (validated looked.0, looked.1)
