-- ===== src/Olog/Gate.antt =====
-- One call of the gate of logbook writes.
use epics_mcp_server.Prelude.{
  ℕ, ◌≤◌, ◌<◌, String, ◌≡◌, refl, sym, ap, ◌∙◌, ◌≢◌, ◌↔◌, ◌⊎◌, inl, inr, true, Option, none, some,
  List, [], ◌∷◌, ◌++◌, arith, length, all, All,
}
use epics_mcp_server.Prelude.Texts.{member, Among, member_iff, Text}
use epics_mcp_server.Errors.{EpicsError, error_code, olog_write_denied, ok, err}
use epics_mcp_server.Window.{purge_old}
use epics_mcp_server.Urls.{UrlLib, url_host, is_loopback_url, is_https_url}
use epics_mcp_server.Olog.{
  OlogWriteGate, deny, url_write_allowed, check_write_env_and_url, check_write_preconditions,
  check_size_and_rate, check_write_allowed, is_given, Checked, then_check, emit, check_logbooks,
}

all-member_iff :
    (allowed ts : List Text)
    → (all (λ l. member l allowed) ts ≡ true) ↔ All (λ l. Among l allowed) ts
all-member_iff allowed [] = ground arith
all-member_iff allowed (t ∷ ts) = ground (arith, member_iff t allowed, all-member_iff allowed ts)

-- The URLs that may be written to: one with a host, on this machine or else, when remote writes are
-- on, exactly a listed one over https.
abbrev pub IsPermitted : UrlLib → OlogWriteGate → Type 0
IsPermitted u g =
    (url_host u g.config.olog_url ≢ none)
    × ((is_loopback_url u g.config.olog_url ≡ true)
        ⊎ ((g.config.olog_write_allow_remote ≡ true)
            × Among g.config.olog_url g.allowed_urls
            × (is_https_url u g.config.olog_url ≡ true)))

is_given_iff {ℓ} : {A : Type ℓ} (o : Option A) → (is_given o ≡ true) ↔ (o ≢ none)
is_given_iff none = (λ h. cc, λ h. absurd (h refl))
is_given_iff (some a) = (λ h k. cc, λ h. refl)

module _ (u : UrlLib) where
  url_write_allowed_iff : (g : OlogWriteGate) → (url_write_allowed u g ≡ true) ↔ IsPermitted u g
  unfolding url_write_allowed
  url_write_allowed_iff g = ground (
    arith,
    is_given_iff (url_host u g.config.olog_url),
    member_iff g.config.olog_url g.allowed_urls,
  )

  size_and_rate_iff :
      (g : OlogWriteGate) (bytes now : ℕ) (caller : String)
      → ((check_size_and_rate u bytes now caller g).0 ≡ ok tt) ↔ (
          (bytes ≤ g.config.olog_attach_max_bytes)
          × (length (purge_old now g.timestamps) < g.limit))
  unfolding check_size_and_rate
  size_and_rate_iff g bytes now caller = ground arith

  preconditions_iff :
      (g : OlogWriteGate) (logbooks : List Text) (caller : String)
      → ((check_write_preconditions u g logbooks caller).0 ≡ ok tt) ↔ (
          (logbooks ≢ [])
          × (g.config.allow_olog_write ≡ true)
          × IsPermitted u g
          × All (λ l. Among l g.allowed_logbooks) logbooks)
  unfolding check_write_preconditions check_write_env_and_url
  preconditions_iff g [] caller = ground arith
  preconditions_iff g (l ∷ ls) caller =
      ground (arith, url_write_allowed_iff g, all-member_iff g.allowed_logbooks (l ∷ ls))

  pub preconditions_kept :
      (g : OlogWriteGate) (logbooks : List Text) (caller : String)
      → (check_write_preconditions u g logbooks caller).0 ≡ ok tt
      → (check_write_preconditions u g logbooks caller).1 ≡ g
  unfolding check_write_preconditions check_write_env_and_url
  preconditions_kept g [] caller h = ground arith
  preconditions_kept g (l ∷ ls) caller h = ground arith

ok-ne-err {ℓ} : {A : Type ℓ} {a : A} {e : EpicsError} → err e ≡ ok a → ⊥
ok-ne-err h = cc

pub then_check_iff :
    (c : Checked) (k : OlogWriteGate → Checked)
    → ((then_check c k).0 ≡ ok tt) ↔ ((c.0 ≡ ok tt) × ((k c.1).0 ≡ ok tt))
then_check_iff (ok tt, g) k = (λ h. (refl, h), λ h. h.1)
then_check_iff (err e, g) k = (λ h. absurd (ok-ne-err h), λ h. absurd (ok-ne-err h.0))

module _ (u : UrlLib) where
  -- A logbook write is granted exactly if writes are on, the server's URL is permitted, at least one
  -- logbook is named and every one is listed, the attachments are within the bound, and fewer tokens
  -- than the limit are left after the purge.
  pub olog_write_allowed_iff :
      (g : OlogWriteGate) (logbooks : List Text) (caller : String) (bytes now : ℕ)
      → ((check_write_allowed u g logbooks caller bytes now).0 ≡ ok tt) ↔ (
          ((logbooks ≢ [])
            × (g.config.allow_olog_write ≡ true)
            × IsPermitted u g
            × All (λ l. Among l g.allowed_logbooks) logbooks)
          × (bytes ≤ g.config.olog_attach_max_bytes)
          × (length (purge_old now g.timestamps) < g.limit))
  unfolding check_write_allowed
  olog_write_allowed_iff g logbooks caller bytes now =
      let c = check_write_preconditions u g logbooks caller in
      let t = then_check_iff c (check_size_and_rate u bytes now caller) in
      let p = preconditions_iff u g logbooks caller in
      let k = preconditions_kept u g logbooks caller in
      let q = size_and_rate_iff u g bytes now caller in
      (
        λ h. let (a, b) = t.0 h in let (x, y) = q.0 (rw (k a) at b) in (p.0 a, x, y),
        λ (a, x, y). t.1 (p.1 a, rw (k (p.1 a)) (q.1 (x, y))),
      )

-- What a refusal leaves: one DENY line with the error's code, or the code of attachments too large,
-- the same configuration, and the tokens as they were or purged, never a new one.
pub record IsRefused (g g' : OlogWriteGate) (caller : String) (now : ℕ) (e : EpicsError)
    : Type 0 where
  pub line :
      (g'.audit ≡ g.audit ++ deny (error_code e) caller ∷ [])
      ⊎ ((g'.audit ≡ g.audit ++ deny "OLOG_ATTACH_TOO_LARGE" caller ∷ []) × (e ≡ olog_write_denied))
  pub same_config : g'.config ≡ g.config
  pub tokens : (g'.timestamps ≡ g.timestamps) ⊎ (g'.timestamps ≡ purge_old now g.timestamps)

-- The two ways a checked step ends in an error.
then_check-err :
    (c : Checked) (k : OlogWriteGate → Checked) (e : EpicsError)
    → (then_check c k).0 ≡ err e
    → ((c.0 ≡ err e) × (then_check c k ≡ c))
      ⊎ ((c.0 ≡ ok tt) × ((k c.1).0 ≡ err e) × (then_check c k ≡ k c.1))
then_check-err (ok tt, g) k e h = inr (refl, h, refl)
then_check-err (err d, g) k e h = inl (h, refl)

module _ (u : UrlLib) (g : OlogWriteGate) (caller : String) (now : ℕ) (e : EpicsError) where
  pub denied-IsRefused :
      (c : Checked)
      → c ≡ (err olog_write_denied, emit g (deny "OLOG_WRITE_DENIED" caller))
      → c.0 ≡ err e
      → IsRefused g c.1 caller now e
  unfolding emit error_code
  denied-IsRefused c h k = record {
    line = ground arith;
    same_config = ground arith;
    tokens = ground arith;
  }

  pub env_and_url-err :
      (check_write_env_and_url u g caller).0 ≡ err e
      → check_write_env_and_url u g caller
        ≡ (err olog_write_denied, emit g (deny "OLOG_WRITE_DENIED" caller))
  unfolding check_write_env_and_url
  env_and_url-err h = ground arith

  pub env_and_url_kept :
      (check_write_env_and_url u g caller).0 ≡ ok tt → (check_write_env_and_url u g caller).1 ≡ g
  unfolding check_write_env_and_url
  env_and_url_kept h = ground arith

  logbooks-err :
      (ls : List Text)
      → (check_logbooks u ls caller g).0 ≡ err e
      → check_logbooks u ls caller g
        ≡ (err olog_write_denied, emit g (deny "OLOG_WRITE_DENIED" caller))
  logbooks-err ls h = ground arith

  logbooks-IsRefused :
      (ls : List Text) (g' : OlogWriteGate)
      → g' ≡ g
      → (check_logbooks u ls caller g').0 ≡ err e
      → IsRefused g (check_logbooks u ls caller g').1 caller now e
  logbooks-IsRefused ls g' k h =
      let h' = ap (λ (x : OlogWriteGate). (check_logbooks u ls caller x).0) (sym k) ∙ h in
      denied-IsRefused _ (ap (check_logbooks u ls caller) k ∙ logbooks-err ls h') h

  pub preconditions-IsRefused :
      (logbooks : List Text)
      → (check_write_preconditions u g logbooks caller).0 ≡ err e
      → IsRefused g (check_write_preconditions u g logbooks caller).1 caller now e
  unfolding check_write_preconditions
  preconditions-IsRefused [] h = denied-IsRefused _ refl h
  preconditions-IsRefused (l ∷ ls) h =
      elim (then_check-err (check_write_env_and_url u g caller) (check_logbooks u (l ∷ ls) caller) e
        h) [
          | inl (a, b) ↦ denied-IsRefused _ (b ∙ env_and_url-err a) h
          | inr (a, b, c) ↦ rw c (logbooks-IsRefused (l ∷ ls) _ (env_and_url_kept a) b)
        ]

  size_and_rate-IsRefused :
      (bytes : ℕ)
      → (check_size_and_rate u bytes now caller g).0 ≡ err e
      → IsRefused g (check_size_and_rate u bytes now caller g).1 caller now e
  unfolding check_size_and_rate
  size_and_rate-IsRefused bytes h = record {
    line = ground arith;
    same_config = ground arith;
    tokens = ground arith;
  }

  -- A refused logbook write leaves one DENY line with the error's code (or, for attachments too large,
  -- with their own code), and takes no token.
  pub olog_write-IsRefused :
      (logbooks : List Text) (bytes : ℕ)
      → (check_write_allowed u g logbooks caller bytes now).0 ≡ err e
      → IsRefused g (check_write_allowed u g logbooks caller bytes now).1 caller now e
  unfolding check_write_allowed
  olog_write-IsRefused logbooks bytes h =
      elim (then_check-err (check_write_preconditions u g logbooks caller)
        (check_size_and_rate u bytes now caller) e h) [
          | inl (a, b) ↦ rw b (preconditions-IsRefused logbooks a)
          | inr (a, b, c) ↦
              rw (c, preconditions_kept u g logbooks caller a)
                (size_and_rate-IsRefused bytes (rw (preconditions_kept u g logbooks caller a) at b))
        ]
