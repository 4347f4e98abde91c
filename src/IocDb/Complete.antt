-- ===== src/IocDb/Complete.antt =====
-- When the PV names of an IOC are complete, and what the cross-plane report makes of them.
use epics_mcp_server.Prelude.{◌≡◌, ◌⊎◌, false, some}
use epics_mcp_server.Crossplane.{IocDb}
use epics_mcp_server.Crossplane.Report.{Inputs}
use epics_mcp_server.Macro.{Macros}
use epics_mcp_server.IocDb.{Patterns, Load, StCmdInfo}
use epics_mcp_server.IocDb.Pvs.{
  ModuleRoot, PvNames, loaded, is_db_load, is_unsupported, load_outcome, load_ioc_db,
}

module _ (re : Patterns) (root : ModuleRoot) where
  -- The database of a load is found once and read.
  abbrev pub IsFollowed : Macros → Load → Type 0
  IsFollowed env load = (names : PvNames) × (load_outcome re root env load ≡ loaded names)

  -- A load of no command that hides its records: it is followed, or passed over, as any load is that is
  -- no dbLoadRecords of a file that ends in `.db`.
  abbrev pub IsHandled : Macros → Load → Type 0
  IsHandled env load =
      (is_unsupported load ≡ false) × ((is_db_load load ≡ false) ⊎ IsFollowed env load)

  -- The inputs of the cross-plane report, with the databases that the IOC loads.
  abbrev pub with_loaded : StCmdInfo → Inputs → Inputs
  with_loaded info input = record input {
    ioc_db = some (record {
      resolved = (load_ioc_db re root info).resolved;
      unresolved = (load_ioc_db re root info).unresolved;
    });
    ioc_db_complete = (load_ioc_db re root info).complete;
  }
