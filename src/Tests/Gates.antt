-- ===== src/Tests/Gates.antt =====
-- The gates, the window and the reach check.
use epics_mcp_server.Prelude.{ℕ, ◌+◌, ◌≤◌, ◌<◌, ◌≡◌, refl, inl, true, [], ◌∷◌, arith, length, All}
use epics_mcp_server.Prelude.Texts.{Among, codes}
use epics_mcp_server.Address.{pva, ca, write_reach_violations}
use epics_mcp_server.Address.Reach.{IsIsolated, write_reach_violations_iff}
use epics_mcp_server.Errors.{pv_write_denied, olog_write_denied, ok, err}
use epics_mcp_server.Window.{window, verdicts, purge_old}
use epics_mcp_server.Window.History.{count_in}
use epics_mcp_server.Window.Limit.{history_verdicts, verdicts_refine_history}
use epics_mcp_server.Safety.{construct, check_write_allowed}
use epics_mcp_server.Safety.Gate.{
  IsGuarded, construct-IsGuarded, IsDenied, check_write_allowed_iff, check_write_allowed-IsDenied,
}
use epics_mcp_server.Safety.Session.{grants, grants-le-limit}
use epics_mcp_server.Olog
use epics_mcp_server.Urls.{url_host, is_loopback_url}
use epics_mcp_server.Olog.Gate.{
  IsPermitted, olog_write_allowed_iff, olog_write-IsRefused, IsRefused,
}
use epics_mcp_server.Tests.Fixtures.{
  platform, isolated, literal, settings, gate, local_urls, olog_gate,
}

write_reach_violations_example : write_reach_violations platform isolated ≡ []
unfolding write_reach_violations
write_reach_violations_example = refl

isolated_example : IsIsolated platform isolated pva × IsIsolated platform isolated ca
isolated_example = (write_reach_violations_iff platform isolated).0 write_reach_violations_example

constructed : construct literal ℕ settings (λ path. true) platform isolated ≡ ok gate
unfolding construct write_reach_violations
constructed = refl

IsGuarded-example : IsGuarded literal ℕ platform isolated gate
IsGuarded-example =
    construct-IsGuarded literal ℕ settings (λ path. true) platform isolated gate constructed refl

no_tokens : length (purge_old 7 gate.timestamps) < gate.limit
unfolding purge_old
no_tokens = omega arith

allowed_example : (check_write_allowed gate "IOC:m1" 7).0 ≡ ok tt
allowed_example = (check_write_allowed_iff gate "IOC:m1" 7).1 (refl, refl, no_tokens)

other_name : (check_write_allowed gate "IOC:m2" 7).0 ≡ err pv_write_denied
unfolding check_write_allowed
other_name = refl

denied_example : IsDenied gate (check_write_allowed gate "IOC:m2" 7).1 "IOC:m2" 7 pv_write_denied
denied_example = check_write_allowed-IsDenied gate "IOC:m2" 7 pv_write_denied other_name

grants_example :
    count_in 3 (3 + window) (grants gate (("IOC:m1", 5) ∷ ("IOC:m1", 9) ∷ ("IOC:m1", 9) ∷ [])) ≤ 2
grants_example =
    grants-le-limit gate (("IOC:m1", 5) ∷ ("IOC:m1", 9) ∷ ("IOC:m1", 9) ∷ []) refl
      (omega arith, (omega arith, (omega arith, tt))) 3

verdicts_example :
    verdicts 1 [] (5 ∷ 9 ∷ 60_000_006 ∷ []) ≡ history_verdicts 1 [] (5 ∷ 9 ∷ 60_000_006 ∷ [])
verdicts_example =
    verdicts_refine_history 1 (5 ∷ 9 ∷ 60_000_006 ∷ [])
      (omega arith, (omega arith, (omega arith, tt)))

ops_listed : All (λ l. Among l olog_gate.allowed_logbooks) (codes "ops" ∷ [])
ops_listed = (inl refl, tt)

url-IsPermitted : IsPermitted local_urls olog_gate
unfolding url_host is_loopback_url
url-IsPermitted = (λ h. cc, inl refl)

within_limit : length (purge_old 7 olog_gate.timestamps) < olog_gate.limit
unfolding purge_old
within_limit = omega arith

olog_allowed_example :
    (Olog.check_write_allowed local_urls olog_gate (codes "ops" ∷ []) "agent" 100 7).0 ≡ ok tt
olog_allowed_example =
    (olog_write_allowed_iff local_urls olog_gate (codes "ops" ∷ []) "agent" 100 7).1
      ((λ h. cc, refl, url-IsPermitted, ops_listed), omega arith, within_limit)

too_large :
    (Olog.check_write_allowed local_urls olog_gate (codes "ops" ∷ []) "agent" 101 7).0
    ≡ err olog_write_denied
unfolding Olog.check_write_allowed
too_large = refl

olog-IsRefused_example :
    IsRefused olog_gate
      (Olog.check_write_allowed local_urls olog_gate (codes "ops" ∷ []) "agent" 101 7).1
      "agent"
      7
      olog_write_denied
olog-IsRefused_example =
    olog_write-IsRefused local_urls olog_gate "agent" 7 olog_write_denied (codes "ops" ∷ []) 101
      too_large
