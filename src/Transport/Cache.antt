-- ===== src/Transport/Cache.antt =====
-- What a shared session is, whatever was cached.
use epics_mcp_server.Prelude.{
  ℕ, zero, suc, ◌≡◌, refl, sym, ap, ◌∙◌, ◌≢◌, ◌↔◌, ◌⊎◌, inl, inr, Bool, true, false, Option, none,
  some, List, [], ◌∷◌, arith, Bool-cases, All,
}
use mathlib.Core.Path.{subst}
use epics_mcp_server.Prelude.Texts.{Text, text_eq_iff}
use epics_mcp_server.Transport.Sessions.{
  Verify, verified, unverified, bundle, no_retry, retrying, Session, TlsConfig, by_flag, or_flag,
  resolved, given_header, is_verified, policy, pooled, build_retrying_session, Key, header_eq,
  verify_eq, key_eq, Cache, cached, build_shared, lookup_or_build, shared_session_cached, Call,
  key_of, get_shared_session, shared_sessions,
}

header_eq_sound : (a b : Option Text) → header_eq a b ≡ true → a ≡ b
header_eq_sound none none h = refl
header_eq_sound (some a) (some b) h = ap some ((text_eq_iff a b).0 h)
header_eq_sound none (some b) h = cc
header_eq_sound (some a) none h = cc

verify_eq_sound : (a b : Verify) → verify_eq a b ≡ true → a ≡ b
verify_eq_sound verified verified h = refl
verify_eq_sound unverified unverified h = refl
verify_eq_sound (bundle a) (bundle b) h = ap bundle ((text_eq_iff a b).0 h)
verify_eq_sound verified unverified h = cc
verify_eq_sound verified (bundle b) h = cc
verify_eq_sound unverified verified h = cc
verify_eq_sound unverified (bundle b) h = cc
verify_eq_sound (bundle a) verified h = cc
verify_eq_sound (bundle a) unverified h = cc

key_eq_sound : (a b : Key) → key_eq a b ≡ true → a ≡ b
unfolding key_eq
key_eq_sound a b h = ground (
  arith,
  text_eq_iff a.accept b.accept,
  header_eq_sound a.auth_header b.auth_header,
  verify_eq_sound a.verify b.verify,
)

text_inj : {a b : Text} → some a ≡ some b → a ≡ b
text_inj h = cc

some_inj : {a b : Session} → some a ≡ some b → a ≡ b
some_inj h = cc

-- What a configuration and an argument say of the certificates to trust.
abbrev pub Trusts : TlsConfig → Option Verify → Verify → Type 0
Trusts config (some given) v = v ≡ given
Trusts config none v =
    ((path : Text) × (config.ca_bundle ≡ some path) × (path ≢ []) × (v ≡ bundle path))
    ⊎ (((path : Text) → config.ca_bundle ≡ some path → path ≡ [])
        × (((config.tls_verify ≡ true) × (v ≡ verified))
            ⊎ ((config.tls_verify ≡ false) × (v ≡ unverified))))

flag-Trusts :
    (bundle_path : Option Text) (flag : Bool)
    → ((path : Text) → bundle_path ≡ some path → path ≡ [])
    → Trusts (record { ca_bundle = bundle_path; tls_verify = flag }) none (by_flag flag)
flag-Trusts p true h = inr (h, inl (refl, refl))
flag-Trusts p false h = inr (h, inr (refl, refl))

resolved-Trusts :
    (config : TlsConfig) (verify : Option Verify) → Trusts config verify (resolved config verify)
unfolding resolved
resolved-Trusts config (some given) = refl
resolved-Trusts config none = by_bundle config.ca_bundle
  where
    by_bundle :
        (p : Option Text)
        → Trusts
            (record { ca_bundle = p; tls_verify = config.tls_verify })
            none
            (or_flag p config.tls_verify)
    by_bundle none = flag-Trusts none config.tls_verify (λ path e. cc)
    by_bundle (some []) = flag-Trusts (some []) config.tls_verify (λ path e. sym (text_inj e))
    by_bundle (some (c ∷ path)) = inl (c ∷ path, refl, λ e. cc, refl)

module _ (has_retry : Bool) where
  -- A session as the call asks for it: the headers, the trust, the environment only where the trust is
  -- the plain one, the retries, and no cookies.
  pub record Serves (call : Call) (s : Session) : Type 0 where
    pub accept : s.accept ≡ call.accept
    pub authorization :
        (h : Text) → (s.authorization ≡ some h) ↔ ((call.auth_header ≡ some h) × (h ≢ []))
    pub trust : Trusts call.config call.verify s.verify
    pub environment : (s.trust_env ≡ true) ↔ (s.verify ≡ verified)
    pub once : call.retries ≡ 0 → s.retries ≡ no_retry
    pub retries :
        has_retry ≡ true
        → call.retries ≢ 0
        → s.retries ≡ retrying call.retries call.backoff_factor (502 ∷ 503 ∷ 504 ∷ [])
    pub pool : has_retry ≡ true → s.pool_maxsize ≡ some 32
    pub no_cookies : s.stores_cookies ≡ false

  -- Every call has its session.
  abbrev pub AllServed : List Call → List Session → Type 0
  AllServed [] [] = Unit {0}
  AllServed (call ∷ calls) (s ∷ ss) = Serves call s × AllServed calls ss
  AllServed _ _ = ⊥

  header_iff :
      (given : Option Text) (h : Text)
      → (given_header given ≡ some h) ↔ ((given ≡ some h) × (h ≢ []))
  header_iff none h = (λ e. cc, λ e. cc)
  header_iff (some []) h = (λ e. cc, λ e. absurd (e.1 (sym (text_inj e.0))))
  header_iff (some (c ∷ t)) h = (λ e. (e, λ n. cc), λ e. e.0)

  verified_iff : (v : Verify) → (is_verified v ≡ true) ↔ (v ≡ verified)
  verified_iff verified = (λ e. refl, λ e. refl)
  verified_iff unverified = (λ e. cc, λ e. cc)
  verified_iff (bundle path) = (λ e. cc, λ e. cc)

  some_policy :
      (has : Bool) (n b : ℕ)
      → has ≡ true
      → n ≢ 0
      → policy has n b ≡ retrying n b (502 ∷ 503 ∷ 504 ∷ [])
  some_policy true zero b e m = absurd (m refl)
  some_policy true (suc n) b e m = refl
  some_policy false n b e m = cc

  wide_pool : (has : Bool) (n : ℕ) → has ≡ true → pooled has n (some 32) ≡ some 32
  wide_pool true zero e = refl
  wide_pool true (suc n) e = refl
  wide_pool false n e = cc

  no_policy : (n b : ℕ) → n ≡ 0 → policy has_retry n b ≡ no_retry
  no_policy zero b e = refl
  no_policy (suc n) b e = absurd (omega (arith, e))

  built-Serves :
      (call : Call) (config : TlsConfig) → Serves call (build_shared has_retry config (key_of call))
  unfolding build_shared build_retrying_session
  built-Serves call config = record {
    accept = refl;
    authorization = header_iff call.auth_header;
    trust = resolved-Trusts call.config call.verify;
    environment = verified_iff (resolved call.config call.verify);
    once = no_policy call.retries call.backoff_factor;
    retries = some_policy has_retry call.retries call.backoff_factor;
    pool = wide_pool has_retry call.retries;
    no_cookies = refl;
  }

  -- Every session in the cache is one that is built for its key.
  abbrev IsFaithful : Cache → Type 0
  IsFaithful = All (λ (k, s). (config : TlsConfig) × (s ≡ build_shared has_retry config k))

  cached-IsFaithful :
      (k : Key) (c : Cache) (s : Session)
      → IsFaithful c
      → cached k c ≡ some s
      → (config : TlsConfig) × (s ≡ build_shared has_retry config k)
  unfolding cached
  cached-IsFaithful k [] s f h = cc
  cached-IsFaithful k ((j, t) ∷ c) s ((config, e), f) h = elim (Bool-cases (key_eq j k)) [
    | inl same ↦ (
      config,
      sym (some_inj (rw same at h))
          ∙ e
          ∙ ap (build_shared has_retry config) (key_eq_sound j k same),
    )
    | inr other ↦ cached-IsFaithful k c s f (rw other at h)
  ]

  lookup_or_build_lem :
      (config : TlsConfig) (k : Key) (c : Cache) (found : Option Session)
      → IsFaithful c
      → cached k c ≡ found
      → ((made : TlsConfig) × ((lookup_or_build has_retry config k c found).0
            ≡ build_shared has_retry made k))
        × IsFaithful (lookup_or_build has_retry config k c found).1
  lookup_or_build_lem config k c none f h = ((config, refl), ((config, refl), f))
  lookup_or_build_lem config k c (some s) f h = (cached-IsFaithful k c s f h, f)

  shared_sessions_lem :
      (c : Cache) (calls : List Call)
      → IsFaithful c
      → AllServed calls (shared_sessions has_retry c calls)
  unfolding shared_sessions get_shared_session shared_session_cached
  shared_sessions_lem c [] f = tt
  shared_sessions_lem c (call ∷ calls) f =
      let ((made, e), g) =
        lookup_or_build_lem call.config (key_of call) c (cached (key_of call) c) f refl in
      (
        subst (Serves call) (sym e) (built-Serves call made),
        shared_sessions_lem (get_shared_session has_retry call c).1 calls g,
      )

  -- Whatever was cached before, a shared session has the headers of its call, trusts the certificates
  -- that the call or else the configuration at that time says, reads the environment exactly where
  -- the trust is the plain one, retries as the call says, and stores no cookies.
  pub shared_sessions-AllServed :
      (calls : List Call) → AllServed calls (shared_sessions has_retry [] calls)
  shared_sessions-AllServed calls = shared_sessions_lem [] calls tt
