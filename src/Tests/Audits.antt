-- ===== src/Tests/Audits.antt =====
-- A coverage audit of three PVs.
use epics_mcp_server.Prelude.{refl, inl, none, some, List, [], ◌∷◌}
use epics_mcp_server.Prelude.Texts.{codes, text_eq, Among}
use epics_mcp_server.Coverage.{IndexRow, registered, Planes, audit_coverage}

-- The Archiver knows A only, and the alarm logger is not wired.
abbrev planes : Planes
planes = record {
  channelfinder = registered (codes "A" ∷ codes "B" ∷ []);
  archived = some (λ pv. some (text_eq pv (codes "A")));
  alarmed = none;
}

abbrev index : List IndexRow
index =
    record { pv = codes "A.EGU"; displays = codes "main" ∷ []; roles = [] }
    ∷ record { pv = codes "B"; displays = codes "main" ∷ []; roles = [] }
    ∷ record { pv = codes "C"; displays = codes "main" ∷ []; roles = [] }
    ∷ []

c_is_shown_only : Among (codes "C") (audit_coverage planes [] [] index).display_only
unfolding audit_coverage
c_is_shown_only = inl refl
