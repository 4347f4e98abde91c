-- ===== src/Olog/Granted.antt =====
-- What a granted logbook write leaves in the gate.
use epics_mcp_server.Prelude.{ℕ, ◌<◌, String, ◌≡◌, sym, ap, ◌∙◌, List, [], ◌∷◌, ◌++◌, arith, length}
use epics_mcp_server.Prelude.Texts.{Text}
use epics_mcp_server.Errors.{ok, err}
use epics_mcp_server.Window.{purge_old, push, acquire}
use epics_mcp_server.Urls.{UrlLib}
use epics_mcp_server.Olog.{
  OlogWriteGate, Checked, check_write_preconditions, check_write_allowed, then_check,
  check_size_and_rate,
}
use epics_mcp_server.Olog.Gate.{preconditions_kept, then_check_iff}

push_room :
    (limit : ℕ) (ts : List ℕ) (now : ℕ) → length ts < limit → push limit ts now ≡ ts ++ now ∷ []
unfolding push
push_room limit [] now h = ground arith
push_room limit (t ∷ ts) now h = ground arith

module _ (u : UrlLib) (caller : String) (now : ℕ) where
  size_and_rate_leaves :
      (g g' : OlogWriteGate) (bytes : ℕ)
      → check_size_and_rate u bytes now caller g ≡ (ok tt, g')
      → (g'.audit ≡ g.audit)
        × (g'.config ≡ g.config)
        × (g'.timestamps ≡ purge_old now g.timestamps ++ now ∷ [])
  unfolding check_size_and_rate acquire
  size_and_rate_leaves g g' bytes h = (
    ground arith,
    ground arith,
    ground (arith, push_room g.limit (purge_old now g.timestamps) now),
  )

  -- A granted write audits nothing yet, keeps the configuration, and takes one token behind those that the purge keeps.
  pub granted_leaves :
      (g g' : OlogWriteGate) (logbooks : List Text) (bytes : ℕ)
      → check_write_allowed u g logbooks caller bytes now ≡ (ok tt, g')
      → (g'.audit ≡ g.audit)
        × (g'.config ≡ g.config)
        × (g'.timestamps ≡ purge_old now g.timestamps ++ now ∷ [])
  unfolding check_write_allowed
  granted_leaves g g' logbooks bytes h =
      let c = check_write_preconditions u g logbooks caller in
      let (a, b) =
        (then_check_iff c (check_size_and_rate u bytes now caller)).0
          (ap (λ (x : Checked). x.0) h) in
      let kept = preconditions_kept u g logbooks caller a in
      size_and_rate_leaves g g' bytes (passed c (check_size_and_rate u bytes now caller) a kept h)
    where
      passed :
          (c : Checked) (k : OlogWriteGate → Checked)
          → c.0 ≡ ok tt
          → c.1 ≡ g
          → then_check c k ≡ (ok tt, g')
          → k g ≡ (ok tt, g')
      passed (ok t, w) k a e h = ap k (sym e) ∙ h
      passed (err d, w) k a e h = cc
