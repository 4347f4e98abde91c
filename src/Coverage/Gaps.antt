-- ===== src/Coverage/Gaps.antt =====
-- Which PVs the audit reports as uncovered.

use epics_mcp_server.Prelude.{
  ◌≡◌, refl, ◌↔◌, ◌⊎◌, Bool, true, false, not, Option, some, List, [], ◌∷◌, map, arith,
  if◌then◌else◌,
}
use epics_mcp_server.Prelude.Texts.{Text, Among}
use epics_mcp_server.Names.{record_name}
use epics_mcp_server.Coverage.{
  IndexRow, Registry, registered, Checker, cf_set, Planes, PvCoverageRow, row_for, no_texts,
}

-- The checker answers that the PV is not covered.
abbrev pub Refutes : Checker → Text → Type 0
Refutes checker pv = (call : Text → Option Bool) × (checker ≡ some call) × (call pv ≡ some false)

pub registered_injective : (m n : List Text) → registered m ≡ registered n → m ≡ n
registered_injective m n h = cc

-- ChannelFinder has answered, and lists the PV.
abbrev pub Delivers : Registry → Text → Type 0
Delivers registry pv =
    (names : List Text) × (registry ≡ registered names) × Among pv (map record_name names)

pub Among-if :
    (b : Bool) (t pv : Text) (later : List Text)
    → Among pv (if b then t ∷ later else later) ↔ (((t ≡ pv) × (b ≡ true)) ⊎ Among pv later)
Among-if true t pv later = ground arith
Among-if false t pv later = ground arith

-- What the audit has to prove before it calls a delivered PV uncovered.
abbrev pub Uncovered : Planes → (shown : Type 0) → List Text → Text → Type 0
Uncovered planes shown context_capped pv =
    ((context_capped ≡ []) × (shown → ⊥)) ⊎ (Refutes planes.archived pv ⊎ Refutes planes.alarmed pv)

module _ (planes : Planes) (rows : List IndexRow) (context_capped : List Text) where
  abbrev row : Text → PvCoverageRow
  row = row_for planes rows (not (no_texts context_capped))

  row_of : (pv : Text) → (row pv).pv ≡ pv
  unfolding row_for
  row_of pv = refl

pub delivered_in_cf :
    (registry : Registry) (pv : Text) → Delivers registry pv → Among pv (cf_set registry)
unfolding cf_set
delivered_in_cf registry pv (names, e, k) = rw e k
