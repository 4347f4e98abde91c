-- ===== src/Transport.antt =====
-- services/_http.py: the requests of the REST clients. The session of `requests`, the parser of headers
-- and the numerals of Python are the parameters `Session` and `Headers`.
pub mod Steps
pub mod Capped
pub mod Sessions
pub mod Cache
pub mod Contract
use epics_mcp_server.Prelude.{
  ℕ, ◌+◌, Bool, true, false, not, ◌&&◌, Option, none, some, [], ◌++◌, ltb, leb, ◌==◌, if◌then◌else◌,
  length,
}
use epics_mcp_server.Prelude.Texts.{Text, codes, is_empty}
use epics_mcp_server.Errors.{Result, ok, err}
use epics_mcp_server.Throttle.{ReadThrottle, check}
use epics_mcp_server.Json.{Json}

-- The classes of `requests.exceptions` that the code tells apart: an `ssl_error` is a ConnectionError,
-- and an `invalid_error` a ValueError, as for a body that is no JSON.
pub data ErrorClass : Type 0 where
  connection_error ssl_error retry_error invalid_error request_error : ErrorClass

-- A RequestException, with the status of the response that it carries, if any.
pub record RequestException : Type 0 where
  pub class : ErrorClass
  pub response : Option ℕ

-- The chunks that `iter_content` yields; it may break off with an exception.
pub data Stream : Type 0 where
  ended : Stream
  broken : RequestException → Stream
  chunk : Text → Stream → Stream

pub record Response : Type 0 where
  pub status_code : ℕ
  pub is_redirect : Bool
  -- `none` for a body that is no JSON
  pub json : Option Json
  pub body : Stream
  pub content_length : Option Text
  pub content_disposition : Option Text
  pub content_type : Option Text

pub data Answer : Type 0 where
  responded : Response → Answer
  failed : RequestException → Answer

-- What a call of this module does: it returns, or raises the client's connection error, its response
-- error, the error of the throttle, or a ValueError. An error keeps its cause.
pub data Outcome {ℓ} (A : Type ℓ) : Type ℓ where
  returned : A → Outcome A
  conn_exc : RequestException → Outcome A
  resp_exc : Option RequestException → Outcome A
  throttled value_error : Outcome A

infixl 5 ◌>>=◌ ◌>>◌
abbrev pub ◌>>=◌ {a b} : {A : Type a} {B : Type b} → Outcome A → (A → Outcome B) → Outcome B
returned value >>= rest = rest value
conn_exc e >>= rest = conn_exc e
resp_exc e >>= rest = resp_exc e
throttled >>= rest = throttled
value_error >>= rest = value_error

abbrev pub ◌>>◌ {b} : {B : Type b} → Outcome (Unit {0}) → Outcome B → Outcome B
first >> rest = first >>= λ u. rest

abbrev pub refuse_if : Bool → Outcome (Unit {0})
refuse_if false = returned tt
refuse_if true = resp_exc none

abbrev pub by_class : {A : Type 0} → ErrorClass → RequestException → Outcome A
by_class connection_error e = conn_exc e
by_class ssl_error e = conn_exc e
by_class retry_error e = resp_exc (some e)
by_class invalid_error e = resp_exc (some e)
by_class request_error e = resp_exc (some e)

-- The `except RequestException` of every request
unfoldable pub translated : {A : Type 0} → RequestException → Outcome A
translated e = by_class e.class e

abbrev pub is_error_status : ℕ → Bool
is_error_status status = leb 400 status && ltb status 600

abbrev pub http_error : ℕ → RequestException
http_error status = record { class = request_error; response = some status }

-- `resp.raise_for_status()`
abbrev pub raise_for_status : Response → Outcome (Unit {0})
raise_for_status r =
    if is_error_status r.status_code
    then resp_exc (some (http_error r.status_code))
    else returned tt

abbrev pub parsed : Option Json → Outcome Json
parsed none = resp_exc (some (record { class = invalid_error; response = none }))
parsed (some j) = returned j

-- The answer to a request for JSON
unfoldable pub json_of : Bool → Answer → Outcome Json
unfolding translated
json_of allow_redirects (failed e) = translated e
json_of allow_redirects (responded r) = do
  refuse_if (not allow_redirects && r.is_redirect)
  raise_for_status r
  parsed r.json

abbrev pub throttled_first : {A : Type 0} → Result (Unit {0}) → Outcome A → Outcome A
throttled_first (err e) rest = throttled
throttled_first (ok u) rest = rest

-- `get_read_throttle().check()` before a request
abbrev after_check : {A : Type 0} → ReadThrottle → ℕ → Outcome A → Outcome A × ReadThrottle
after_check t now rest = (throttled_first (check t now).0 rest, (check t now).1)

unfoldable pub rest_get_json : ReadThrottle → ℕ → Bool → Answer → Outcome Json × ReadThrottle
unfolding json_of check
rest_get_json t now allow_redirects answer = after_check t now (json_of allow_redirects answer)

-- `rest_put_json`, with the answer to the PUT
unfoldable pub rest_put_json : Bool → Answer → Outcome Json
unfolding json_of
rest_put_json allow_redirects answer = json_of allow_redirects answer

-- `_request_multipart`, which `rest_put_multipart` and `rest_post_multipart` call
unfoldable pub request_multipart : Bool → Answer → Outcome Json
unfolding json_of
request_multipart allow_redirects answer = json_of allow_redirects answer

pub record Headers : Type 0 where
  pub isdigit : Text → Bool
  -- `int(s)`; `none` for a ValueError
  pub int_of : Text → Option ℕ
  -- `Message.get_filename`
  pub get_filename : Text → Option Text

abbrev read_stream : Text → Stream → Outcome Text
read_stream content ended = returned content
read_stream content (broken e) = translated e
read_stream content (chunk c s) = read_stream (content ++ c) s

-- The loop over the chunks, with their sum so far
unfoldable pub read_capped : ℕ → ℕ → Text → Stream → Outcome Text
unfolding translated
read_capped max_bytes total content ended = returned content
read_capped max_bytes total content (broken e) = translated e
read_capped max_bytes total content (chunk c s) =
    let rest = read_capped max_bytes (total + length c) (content ++ c) s in
    if ltb max_bytes (total + length c) then resp_exc none else rest

abbrev pub over_cap : ℕ → Option ℕ → Outcome (Unit {0})
over_cap max_bytes none = value_error
over_cap max_bytes (some n) = refuse_if (ltb max_bytes n)

-- The content, the filename and the content type
pub record Download : Type 0 where
  pub content : Text
  pub filename : Option Text
  pub content_type : Option Text

module _ (h : Headers) where
  abbrev pub check_declared : ℕ → Option Text → Outcome (Unit {0})
  check_declared max_bytes none = returned tt
  check_declared max_bytes (some declared) =
      if h.isdigit declared then over_cap max_bytes (h.int_of declared) else returned tt

  -- `_read_body_capped`
  unfoldable pub read_body_capped : Response → Option ℕ → Outcome Text
  unfolding read_capped translated
  read_body_capped r none = read_stream [] r.body
  read_body_capped r (some max_bytes) = do
    check_declared max_bytes r.content_length
    read_capped max_bytes 0 [] r.body

  abbrev filled : Option Text → Option Text
  filled none = none
  filled (some name) = if is_empty name then none else some name

  -- `_filename_from_content_disposition`
  unfoldable pub filename_from_content_disposition : Option Text → Option Text
  filename_from_content_disposition none = none
  filename_from_content_disposition (some header) =
      if is_empty header then none else filled (h.get_filename header)

  abbrev pub downloaded : Response → Text → Download
  downloaded r content = record {
    content = content;
    filename = filename_from_content_disposition r.content_disposition;
    content_type = r.content_type;
  }

  abbrev pub bytes_of : Bool → Option ℕ → Answer → Outcome Download
  bytes_of allow_redirects max_bytes (failed e) = translated e
  bytes_of allow_redirects max_bytes (responded r) = do
    refuse_if (not allow_redirects && r.is_redirect)
    raise_for_status r
    content ← read_body_capped r max_bytes
    returned (downloaded r content)

  unfoldable pub rest_get_bytes :
      ReadThrottle → ℕ → Bool → Option ℕ → Answer → Outcome Download × ReadThrottle
  unfolding read_body_capped filename_from_content_disposition translated check
  rest_get_bytes t now allow_redirects max_bytes answer =
      after_check t now (bytes_of allow_redirects max_bytes answer)

-- The cause of an error, as `__cause__` holds it
abbrev pub cause_of {ℓ} : {A : Type ℓ} → Outcome A → Option RequestException
cause_of (conn_exc e) = some e
cause_of (resp_exc e) = e
cause_of _ = none

abbrev response_of : Option RequestException → Option ℕ
response_of none = none
response_of (some e) = e.response

abbrev status_is : ℕ → Option ℕ → Bool
status_is status none = false
status_is status (some s) = s == status

abbrev class_of : Option RequestException → ErrorClass
class_of none = request_error
class_of (some e) = e.class

abbrev is_ssl : ErrorClass → Bool
is_ssl ssl_error = true
is_ssl _ = false

abbrev is_retry : ErrorClass → Bool
is_retry retry_error = true
is_retry _ = false

module _ {A : Type 0} where
  unfoldable pub http_status : Outcome A → Option ℕ
  http_status o = response_of (cause_of o)

  unfoldable pub is_http_404 : Outcome A → Bool
  unfolding http_status
  is_http_404 o = status_is 404 (http_status o)

  unfoldable pub is_http_400 : Outcome A → Bool
  unfolding http_status
  is_http_400 o = status_is 400 (http_status o)

  unfoldable pub is_ssl_error : Outcome A → Bool
  is_ssl_error o = is_ssl (class_of (cause_of o))

  unfoldable pub is_retry_error : Outcome A → Bool
  is_retry_error o = is_retry (class_of (cause_of o))
