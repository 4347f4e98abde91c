-- ===== src/Transport/Sessions.antt =====
-- services/_http.py: the sessions that the clients send their requests on. A backoff factor is in
-- thousandths, and `has_retry` says whether urllib3's `Retry` can be imported.
use epics_mcp_server.Prelude.{
  ℕ, zero, suc, Bool, true, false, ◌&&◌, Option, none, some, List, [], ◌∷◌, ◌==◌, if◌then◌else◌,
}
use epics_mcp_server.Prelude.Texts.{Text, is_empty, text_eq}

-- `session.verify`
pub data Verify : Type 0 where
  verified unverified : Verify
  bundle : Text → Verify

pub data RetryPolicy : Type 0 where
  no_retry as_imported : RetryPolicy
  retrying : (total : ℕ) → (backoff_factor : ℕ) → (status_forcelist : List ℕ) → RetryPolicy

pub record Session : Type 0 where
  pub accept : Text
  pub authorization : Option Text
  pub verify : Verify
  pub trust_env : Bool
  pub retries : RetryPolicy
  pub pool_maxsize : Option ℕ
  pub stores_cookies : Bool

pub record TlsConfig : Type 0 where
  pub ca_bundle : Option Text
  pub tls_verify : Bool

abbrev pub by_flag : Bool → Verify
by_flag true = verified
by_flag false = unverified

abbrev pub or_flag : Option Text → Bool → Verify
or_flag none flag = by_flag flag
or_flag (some path) flag = if is_empty path then by_flag flag else bundle path

-- `verify`, or what the configuration says
unfoldable pub resolved : TlsConfig → Option Verify → Verify
resolved config (some verify) = verify
resolved config none = or_flag config.ca_bundle config.tls_verify

abbrev pub given_header : Option Text → Option Text
given_header none = none
given_header (some header) = if is_empty header then none else some header

abbrev pub is_verified : Verify → Bool
is_verified verified = true
is_verified _ = false

abbrev pub policy : Bool → ℕ → ℕ → RetryPolicy
policy has_retry zero backoff_factor = no_retry
policy has_retry (suc n) backoff_factor =
    if has_retry then retrying (suc n) backoff_factor (502 ∷ 503 ∷ 504 ∷ []) else as_imported

-- Without `Retry` the adapters are those that `requests` mounts.
abbrev pub pooled : Bool → ℕ → Option ℕ → Option ℕ
pooled has_retry zero pool_maxsize = pool_maxsize
pooled has_retry (suc n) pool_maxsize = if has_retry then pool_maxsize else none

-- `build_retrying_session`, with the configuration of its time
unfoldable pub build_retrying_session :
    Bool → TlsConfig → Text → Option Text → Option Verify → ℕ → ℕ → Option ℕ → Session
unfolding resolved
build_retrying_session has_retry config accept auth_header verify retries backoff_factor
      pool_maxsize =
    let effective = resolved config verify in
    record {
      accept = accept;
      authorization = given_header auth_header;
      verify = effective;
      trust_env = is_verified effective;
      retries = policy has_retry retries backoff_factor;
      pool_maxsize = pooled has_retry retries pool_maxsize;
      stores_cookies = true;
    }

unfoldable pub build_write_session : TlsConfig → Text → Option Text → Option Verify → Session
unfolding resolved
build_write_session config accept auth_header verify = record {
  accept = accept;
  authorization = given_header auth_header;
  verify = resolved config verify;
  trust_env = false;
  retries = no_retry;
  pool_maxsize = none;
  stores_cookies = true;
}

-- The arguments of `_shared_session_cached`, by which it caches.
pub record Key : Type 0 where
  pub accept : Text
  pub auth_header : Option Text
  pub verify : Verify
  pub retries : ℕ
  pub backoff_factor : ℕ

abbrev pub header_eq : Option Text → Option Text → Bool
header_eq none none = true
header_eq (some a) (some b) = text_eq a b
header_eq _ _ = false

abbrev pub verify_eq : Verify → Verify → Bool
verify_eq verified verified = true
verify_eq unverified unverified = true
verify_eq (bundle a) (bundle b) = text_eq a b
verify_eq _ _ = false

unfoldable pub key_eq : Key → Key → Bool
key_eq a b =
    text_eq a.accept b.accept
    && (header_eq a.auth_header b.auth_header
        && (verify_eq a.verify b.verify
            && (a.retries == b.retries && a.backoff_factor == b.backoff_factor)))

abbrev pub Cache : Type 0
Cache = List (Key × Session)

unfoldable pub cached : Key → Cache → Option Session
unfolding key_eq
cached k [] = none
cached k ((j, s) ∷ c) = let rest = cached k c in if key_eq j k then some s else rest

-- A call of `get_shared_session`, with the configuration of its time.
pub record Call : Type 0 where
  pub config : TlsConfig
  pub accept : Text
  pub auth_header : Option Text
  pub verify : Option Verify
  pub retries : ℕ
  pub backoff_factor : ℕ

abbrev pub key_of : Call → Key
key_of c = record {
  accept = c.accept;
  auth_header = c.auth_header;
  verify = resolved c.config c.verify;
  retries = c.retries;
  backoff_factor = c.backoff_factor;
}

module _ (has_retry : Bool) where
  -- The body of `_shared_session_cached`; `32` is `_SHARED_POOL_MAXSIZE`.
  unfoldable pub build_shared : TlsConfig → Key → Session
  unfolding build_retrying_session
  build_shared config k =
      record (build_retrying_session has_retry config k.accept k.auth_header (some k.verify)
        k.retries k.backoff_factor (some 32)) { stores_cookies = false }

  abbrev pub lookup_or_build : TlsConfig → Key → Cache → Option Session → Session × Cache
  lookup_or_build config k c (some s) = (s, c)
  lookup_or_build config k c none = (build_shared config k, (k, build_shared config k) ∷ c)

  -- `_shared_session_cached`
  unfoldable pub shared_session_cached : TlsConfig → Key → Cache → Session × Cache
  unfolding cached build_shared
  shared_session_cached config k c = lookup_or_build config k c (cached k c)

  unfoldable pub get_shared_session : Call → Cache → Session × Cache
  unfolding shared_session_cached resolved
  get_shared_session call c = shared_session_cached call.config (key_of call) c

  -- The sessions of a sequence of calls
  unfoldable pub shared_sessions : Cache → List Call → List Session
  unfolding get_shared_session
  shared_sessions c [] = []
  shared_sessions c (call ∷ calls) =
      (get_shared_session call c).0 ∷ shared_sessions (get_shared_session call c).1 calls
